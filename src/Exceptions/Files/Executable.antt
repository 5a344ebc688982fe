-- ===== src/Exceptions/Files/Executable.antt =====
-- checkFileExecutable (exceptions/src/FileException.cpp): which paths pass.
use oj_backend.Prelude.{String, ◌≡◌, ◌↔◌, true, not, ◌&&◌, ◌||◌, arith}
use oj_backend.Exceptions.Result.{ok}
use oj_backend.Exceptions.Files.{
  PathState, is_exempt, has_signature, check_file_exists, check_file_executable,
}

-- A path passes exactly when it exists, and it is exempt (root, under /proc or /sys), or its owner
-- may execute it, or it is a file that opens and starts as an executable or a script does.
pub check_file_executable_iff :
    (s : PathState) (path : String)
    → (check_file_executable s path ≡ ok tt) ↔ (
        s.exists
          && (is_exempt s path
              || (s.owner_exec || (not s.is_directory && (s.opens && has_signature s.header))))
        ≡ true)
unfolding check_file_executable check_file_exists
check_file_executable_iff s path = (λ h. ground arith, λ h. ground arith)
