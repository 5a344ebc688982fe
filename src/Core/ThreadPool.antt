-- ===== src/Core/ThreadPool.antt =====
-- core/include/ThreadPool.hpp and core/src/ThreadPool.cpp: workers that share a queue of tasks. One
-- event is what one thread does between two waits; a task is a value, run by `ends`.
pub mod Joined
use oj_backend.Prelude.{
  ℕ, Bool, true, false, ◌&&◌, Option, none, some, List, [], ◌∷◌, ◌++◌, get_elem?, set, replicate,
  if◌then◌else◌,
}
use oj_backend.Exceptions.Result.{Result, Error, ok, err}
use oj_backend.Core.Queue.{is_empty}

pub data WorkerState {ℓ} (T : Type ℓ) : Type ℓ where
  idle exited : WorkerState T
  busy : T → WorkerState T

pub record ThreadPool {ℓ} (T : Type ℓ) : Type ℓ where
  pub workers : List (WorkerState T)
  pub tasks : List T
  pub stop : Bool

module _ {ℓ} {T : Type ℓ} where
  -- ThreadPool::ThreadPool
  unfoldable pub make_pool : ℕ → ThreadPool T
  make_pool threads = record { workers = replicate threads idle; tasks = []; stop = false }

  -- ThreadPool::enqueue
  unfoldable pub enqueue : T → ThreadPool T → Result (ThreadPool T)
  enqueue t p =
      if p.stop
      then err (Error.runtime "enqueue on stopped ThreadPool")
      else ok (record p { tasks = p.tasks ++ t ∷ [] })

  -- The loop of an idle worker, from its wait to the start of a task or to its end. A worker whose
  -- condition does not hold goes on waiting.
  unfoldable pub wake : ThreadPool T → WorkerState T × ThreadPool T
  wake p = elim p.tasks [
    | [] ↦ (if p.stop then exited else idle, p)
    | t ∷ rest ↦ (busy t, record p { tasks = rest })
  ]

  -- The first part of ThreadPool::~ThreadPool; the second waits until every worker has exited.
  unfoldable pub destroy : ThreadPool T → ThreadPool T
  destroy p = record p { stop = true }

  abbrev pub is_exited : WorkerState T → Bool
  is_exited exited = true
  is_exited _ = false
