-- ===== src/Aof/File/Crash.antt =====
-- internal/aof/aof.go: what a restart after a crash recovers.
use goredis_main.Prelude.{
  ℕ, zero, suc, ◌≤◌, ◌≡◌, refl, sym, ap, subst, ◌∙◌, Bool, true, false, List, [], ◌∷◌, ◌++◌, Option,
  none, some, Bytes, arith, length, length-append, take, All, if◌then◌else◌,
}
use goredis_main.Once.{Stopper, stop_once}
use goredis_main.Resp.Value.{Value, array_of}
use goredis_main.Resp.Reader.{Limits}
use goredis_main.Resp.Reader.RoundTrip.{Fits}
use goredis_main.Aof.{replay, append}
use goredis_main.Aof.Recovery.{append_all, append_all-flat}
use goredis_main.Aof.Torn.{Recovers, replay-torn}
use goredis_main.Aof.File.{
  LogFile, open_log, append_line, sync_tick, close_file, close_log, crash, History, opened,
  appended, ticked, idled, closed,
}

append_all-append :
    (file : Bytes) (xs ys : List (List Value))
    → append_all file (xs ++ ys) ≡ append_all (append_all file xs) ys
append_all-append file [] ys = refl
append_all-append file (x ∷ xs) ys = append_all-append (append file x) xs ys

-- The file is the lines', and what is synced of it holds the lines that are.
record Durable (lines : List (List Value)) (n : ℕ) (f : LogFile) : Type 0 where
  content : f.bytes ≡ append_all [] lines
  few : n ≤ length lines
  safe : length (append_all [] (take n lines)) ≤ f.synced

take-append_few :
    {A : Type 0} (n : ℕ) (xs ys : List A) → n ≤ length xs → take n (xs ++ ys) ≡ take n xs
take-append_few zero xs ys h = refl
take-append_few (suc n) [] ys h = absurd (omega arith)
take-append_few (suc n) (x ∷ xs) ys h = ap (◌∷◌ x) (take-append_few n xs ys (omega arith))

take_all : {A : Type 0} (xs : List A) → take (length xs) xs ≡ xs
take_all [] = refl
take_all (x ∷ xs) = ap (◌∷◌ x) (take_all xs)

close_file-Durable :
    (lines : List (List Value)) (n : ℕ) (f f' : LogFile) (o : Option Stopper)
    → Durable lines n f
    → close_file f o ≡ some f'
    → Durable lines n f'
unfolding close_file
close_file-Durable lines n f f' none d e = cc
close_file-Durable lines n f f' (some s) d e =
    subst (Durable lines n) (some-inj e)
      (record { content = d.content; few = d.few; safe = d.safe })
  where
    some-inj : {A : Type 0} {x y : A} → some x ≡ some y → x ≡ y
    some-inj h = cc

History-Durable :
    {lines : List (List Value)} {n : ℕ} {f : LogFile} → History lines n f → Durable lines n f
unfolding open_log append_line sync_tick close_log
History-Durable opened = record { content = refl; few = omega arith; safe = omega arith }
History-Durable (appended {lines = lines} {n = n} {f = f} line h writable) =
    let d = History-Durable h in
    record {
      content = ap (λ b. append b line) d.content ∙ sym (append_all-append [] lines (line ∷ []));
      few = omega (arith, d.few, length-append lines (line ∷ []));
      safe = rw (take-append_few n lines (line ∷ []) d.few) d.safe;
    }
History-Durable (ticked {lines = lines} {f = f} h running) =
    let d = History-Durable h in
    rw running (record {
      content = d.content;
      few = omega arith;
      safe = rw (take_all lines, ← d.content) (omega arith);
    })
History-Durable (idled {lines = lines} {n = n} {f = f} h) =
    unmoved f.stopper.closed (History-Durable h)
  where
    unmoved : (b : Bool) → Durable lines n f → Durable lines n (if b then f else f)
    unmoved true d = d
    unmoved false d = d
History-Durable (closed {lines = lines} {n = n} {f = f} f' h e) =
    close_file-Durable lines n f f' (stop_once f.stopper) (History-Durable h) e

-- A crash loses at most what came after the last fsync: through any appends, ticks of the sync loop and
-- calls of Close, when a crash leaves the synced bytes of the log at least, a replay of what is left
-- runs the callback on the first lines that were appended, on no fewer than there were at the last
-- fsync, and ends in the state that it leaves there. Each line fits the wire, and the callback returns
-- on every line in the states that `P` admits, the first one among them, and stays in those.
pub crash-Recovers {ℓ κ} :
    {S : Type ℓ} (P : S → Type κ) (lim : Limits) (fn : S → List Value → Option S)
    → ((s : S) (args : List Value) → P s → (s' : S) × (fn s args ≡ some s') × P s')
    → {lines : List (List Value)} {n : ℕ} {f : LogFile} (k : ℕ) (s : S) → P s
    → History lines n f
    → f.synced ≤ k
    → All (λ line. Fits lim (array_of line)) lines
    → (r : Recovers fn s lines k (replay lim fn (crash k f) s)) × (n ≤ r.kept)
unfolding crash
crash-Recovers P lim fn total {lines} {n} {f} k s p h enough fits =
    let d = History-Durable h in
    let r = replay-torn P lim fn total lines k s p fits in
    let flattened = ap length (append_all-flat [] (take n lines)) in
    subst (λ b. (x : Recovers fn s lines k (replay lim fn (take k b) s)) × (n ≤ x.kept))
      (sym d.content) (r, r.complete n d.few (omega (arith, flattened, d.safe, enough)))
