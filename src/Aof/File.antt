-- ===== src/Aof/File.antt =====
-- internal/aof/aof.go: the log file through Open, syncLoop, Append and Close, and what a crash of the
-- machine leaves of it. `synced` is the length of the file at its last fsync: the bytes before it
-- survive a crash.
pub mod Crash
use goredis_main.Prelude.{
  ℕ, ◌≡◌, Bool, true, false, List, [], ◌∷◌, ◌++◌, Option, none, some, Bytes, length, take,
  if◌then◌else◌,
}
use goredis_main.Once.{Stopper, new_stopper, stop_once}
use goredis_main.Resp.Value.{Value}
use goredis_main.Aof

-- `stopper` is stopSync with syncOnce, `open` tells whether the descriptor is.
pub record LogFile : Type 0 where
  pub bytes : Bytes
  pub synced : ℕ
  pub stopper : Stopper
  pub is_open : Bool

-- Open, on a file with these bytes.
unfoldable pub open_log : Bytes → LogFile
open_log bytes = record {
  bytes = bytes;
  synced = length bytes;
  stopper = new_stopper;
  is_open = true;
}

-- Append, when the write succeeds.
unfoldable pub append_line : List Value → LogFile → LogFile
append_line line f = record f { bytes = Aof.append f.bytes line }

-- A tick of syncLoop. The error of Sync is not looked at: the file is synced or it is not.
unfoldable pub sync_tick : Bool → LogFile → LogFile
sync_tick success f =
    if f.stopper.closed then f else if success then record f { synced = length f.bytes } else f

close_file : LogFile → Option Stopper → Option LogFile
close_file f none = none
close_file f (some stopper) = some (record f { stopper = stopper; is_open = false })

-- Close: stopSync is closed once, the file each time, with an error from the second time on.
unfoldable pub close_log : LogFile → Option LogFile
unfolding close_file
close_log f = close_file f (stop_once f.stopper)

-- What a crash leaves when it keeps the first n bytes.
unfoldable pub crash : ℕ → LogFile → Bytes
crash n f = take n f.bytes

-- The life of a log: the lines that were appended, how many of them there were at the last fsync, and
-- the file.
pub data History : List (List Value) → ℕ → LogFile → Type 0 where
  opened : History [] 0 (open_log [])
  appended :
      {lines : List (List Value)} {n : ℕ} {f : LogFile} (line : List Value)
      → History lines n f
      → f.is_open ≡ true
      → History (lines ++ line ∷ []) n (append_line line f)
  ticked :
      {lines : List (List Value)} {n : ℕ} {f : LogFile}
      → History lines n f
      → f.stopper.closed ≡ false
      → History lines (length lines) (sync_tick true f)
  idled :
      {lines : List (List Value)} {n : ℕ} {f : LogFile}
      → History lines n f
      → History lines n (sync_tick false f)
  closed :
      {lines : List (List Value)} {n : ℕ} {f : LogFile} (f' : LogFile)
      → History lines n f
      → close_log f ≡ some f'
      → History lines n f'
