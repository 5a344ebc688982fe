-- ===== src/Core/FileWriter.antt =====
-- core/src/FileWriter.cpp. The file is written by Boost.Asio: how much of it is written when a write
-- is started, and when the rest is, is up to that library and to the context of the writer.
use oj_backend.Prelude.{ℤ, String}
use oj_backend.App.Monad.{Act, ◌>>=◌}

-- What the writer calls: open(2) with O_WRONLY | O_CREAT | O_TRUNC and 0644, which gives a descriptor
-- or -1; the constructor of the stream descriptor, which throws for a bad one; and async_write.
pub record WriterCalls (World : Type 0) : Type 0 where
  pub open_file : String → Act World ℤ
  pub stream_descriptor : ℤ → Act World (Unit {0})
  pub async_write : ℤ → String → Act World (Unit {0})

-- FileWriter::write. What open answers is not checked.
unfoldable pub write_file :
    {World : Type 0} → WriterCalls World → String → String → Act World (Unit {0})
write_file calls filename content = do
  fd ← calls.open_file filename
  _ ← calls.stream_descriptor fd
  calls.async_write fd content
