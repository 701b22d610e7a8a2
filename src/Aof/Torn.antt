-- ===== src/Aof/Torn.antt =====
-- internal/aof/aof.go: Replay on a log that a crash has cut off.
use goredis_main.Prelude.{
  ℕ, zero, suc, ◌+◌, ◌-◌, ◌≤◌, ◌<◌, ◌≡◌, ◌⊎◌, refl, sym, ap, subst, ◌∙◌, List, [], ◌∷◌, ◌++◌,
  Option, none, some, Bytes, arith, length, length-append, length-drop, length-take, take, drop,
  leb, Bool-cases, inl, inr, All,
}
use goredis_main.Resp.Value.{Value, array_of, elems_of}
use goredis_main.Resp.Marshal.{marshal}
use goredis_main.Resp.Reader.{Limits, ReadError, Result, ok, err, eof, unexpected_eof, read_frame}
use goredis_main.Resp.Reader.RoundTrip.{Fits, read_frame-marshal}
use goredis_main.Resp.Reader.Extends.{torn-read_frame}
use goredis_main.Aof.{Replayed, done, failed, panicked, read_end, replay_loop, replay}
use goredis_main.Aof.Recovery.{
  append_all, flat, append_all-flat, marshal_pos, to_list-of_list, Ran, finished, next,
  replay_loop_step,
}

-- The replay came to the state s', at the end of the file or, given `Tear`, on io.ErrUnexpectedEOF.
pub data EndsAt {ℓ} {S : Type ℓ} (Tear : Type 0) (s' : S) : Replayed S → Type ℓ where
  at_end : EndsAt Tear s' (done s')
  at_tear : Tear → EndsAt Tear s' (failed unexpected_eof s')

EndsAt-map {ℓ} :
    {S : Type ℓ} {T T' : Type 0} {s : S} {r : Replayed S} → (T → T') → EndsAt T s r → EndsAt T' s r
EndsAt-map f at_end = at_end
EndsAt-map f (at_tear t) = at_tear (f t)

-- The first n bytes of the file end with a part of the line after the first k.
abbrev pub Torn : List (List Value) → ℕ → ℕ → Type 0
Torn lines n k = (k < length lines) × (length (flat (take k lines)) < n)

-- A replay of the first n bytes of the log ran the callback on the first k lines, and k is at least the
-- number of lines that lie in those bytes whole; where it ended on an error, a part of a line was left.
pub record Recovers {ℓ} {S : Type ℓ} (fn : S → List Value → Option S) (s : S)
    (lines : List (List Value)) (n : ℕ) (r : Replayed S) : Type ℓ where
  pub kept : ℕ
  pub state : S
  pub bound : kept ≤ length lines
  pub replayed : Ran fn s (take kept lines) state
  pub complete : (j : ℕ) → j ≤ length lines → length (flat (take j lines)) ≤ n → j ≤ kept
  pub result : EndsAt (Torn lines n kept) state r

take-drop : {A : Type 0} (n : ℕ) (xs : List A) → xs ≡ take n xs ++ drop n xs
take-drop zero xs = refl
take-drop (suc n) [] = refl
take-drop (suc n) (x ∷ xs) = ap (◌∷◌ x) (take-drop n xs)

take-append_short :
    {A : Type 0} (n : ℕ) (xs ys : List A) → n ≤ length xs → take n (xs ++ ys) ≡ take n xs
take-append_short zero xs ys h = refl
take-append_short (suc n) [] ys h = absurd (omega arith)
take-append_short (suc n) (x ∷ xs) ys h = ap (◌∷◌ x) (take-append_short n xs ys (omega arith))

take-append_long :
    {A : Type 0} (n : ℕ) (xs ys : List A) → take (length xs + n) (xs ++ ys) ≡ xs ++ take n ys
take-append_long n [] ys = ap (λ m. take m ys) {x = 0 + n} {y = n} (omega arith)
take-append_long n (x ∷ xs) ys =
    ap (λ m. take m (x ∷ (xs ++ ys))) {x = suc (length xs) + n} {y = suc (length xs + n)}
      (omega arith)
    ∙ ap (◌∷◌ x) (take-append_long n xs ys)

take_none : (n : ℕ) → take n (flat []) ≡ []
take_none zero = refl
take_none (suc n) = refl

module _ {ℓ} {S : Type ℓ} (lim : Limits) (fn : S → List Value → Option S) where
  stopped :
      (f : ℕ) (file : Bytes) (s : S) (e : ReadError)
      → read_frame lim file ≡ err e
      → replay_loop lim fn (suc f) file s ≡ read_end lim fn e s
  unfolding replay_loop
  stopped f file s e h = ap after_read h
    where
      after_read : Result (Value × Bytes) → Replayed S
      after_read x = elim x [
        | err e ↦ read_end lim fn e s
        | ok (v, rest) ↦ elim (fn s (elems_of v)) [
          | none ↦ panicked
          | some s' ↦ replay_loop lim fn f rest s'
        ]
      ]

  -- Nothing whole is left.
  none_kept :
      (lines : List (List Value)) (n f : ℕ) (file : Bytes) (s : S)
      → EndsAt (Torn lines n 0) s (replay_loop lim fn (suc f) file s)
      → ((j : ℕ) → j ≤ length lines → length (flat (take j lines)) ≤ n → j ≤ 0)
      → Recovers fn s lines n (replay_loop lim fn (suc f) file s)
  none_kept lines n f file s h c = record {
    kept = 0;
    state = s;
    bound = omega arith;
    replayed = finished s;
    complete = c;
    result = h;
  }

  ended :
      (T : Type 0) (f : ℕ) (file : Bytes) (s : S)
      → read_frame lim file ≡ err eof
      → EndsAt T s (replay_loop lim fn (suc f) file s)
  ended T f file s h = subst (EndsAt T s) (sym (stopped f file s eof h)) at_end

  torn :
      {T : Type 0} (f : ℕ) (file : Bytes) (s : S)
      → T
      → read_frame lim file ≡ err unexpected_eof
      → EndsAt T s (replay_loop lim fn (suc f) file s)
  torn {T} f file s t h = subst (EndsAt T s) (sym (stopped f file s unexpected_eof h)) (at_tear t)

  kept_line :
      (line : List Value) (lines : List (List Value)) (n : ℕ) (s s' : S) (r : Replayed S)
      → fn s line ≡ some s'
      → Recovers fn s' lines n r
      → Recovers fn s (line ∷ lines) (length (marshal (array_of line)) + n) r
  kept_line line lines n s s' r e rest = record {
    kept = suc rest.kept;
    state = rest.state;
    bound = omega (arith, rest.bound);
    replayed = next s s' rest.state line (take rest.kept lines) e rest.replayed;
    complete = count;
    result = EndsAt-map tear rest.result;
  }
    where
      tear :
          Torn lines n rest.kept
          → Torn (line ∷ lines) (length (marshal (array_of line)) + n) (suc rest.kept)
      tear (more, part) =
          let total = length-append (marshal (array_of line)) (flat (take rest.kept lines)) in
          (omega (arith, more), omega (arith, total, part))

      count :
          (j : ℕ)
          → j ≤ suc (length lines)
          → length (flat (take j (line ∷ lines))) ≤ length (marshal (array_of line)) + n
          → j ≤ suc rest.kept
      count zero h k = omega arith
      count (suc j) h k =
          let total = length-append (marshal (array_of line)) (flat (take j lines)) in
          let sofar = rest.complete j (omega arith) (omega (arith, total, k)) in
          omega (arith, sofar)

  -- The first line is whole in the first m + n bytes, where m is its length.
  whole_line :
      (line : List Value) (lines : List (List Value)) (n f : ℕ) (s s' : S)
      → Fits lim (array_of line)
      → fn s line ≡ some s'
      → Recovers fn s' lines n (replay_loop lim fn f (take n (flat lines)) s')
      → Recovers fn s (line ∷ lines) (length (marshal (array_of line)) + n) (
          replay_loop lim fn
            (suc f)
            (take (length (marshal (array_of line)) + n) (flat (line ∷ lines)))
            s)
  whole_line line lines n f s s' fits e rest =
      let a = marshal (array_of line) in
      let b = take n (flat lines) in
      let called = ap (fn s) (to_list-of_list line) ∙ e in
      let step =
        replay_loop_step lim fn f (a ++ b) b s s' (array_of line)
          (read_frame-marshal lim (array_of line) b fits) called in
      rw (take-append_long n a (flat lines), step) (kept_line line lines n s s' _ e rest)

  -- The first line is cut off.
  torn_line :
      (line : List Value) (lines : List (List Value)) (n f : ℕ) (s : S)
      → Fits lim (array_of line)
      → n < length (marshal (array_of line))
      → Recovers fn s (line ∷ lines) n (replay_loop lim fn (suc f) (take n (flat (line ∷ lines))) s)
  torn_line line lines n f s fits short =
      let a = marshal (array_of line) in
      let torn_read =
        torn-read_frame lim (array_of line) (take n a) (drop n a) fits (take-drop n a)
          (omega (arith, length-drop n a, short)) in
      rw (take-append_short n a (flat lines) (omega (arith, short))) (
        none_kept (line ∷ lines) n f (take n a) s
          (at_part (take n a) (omega (arith, length-take n a, short)) torn_read) count)
    where
      at_part :
          (file : Bytes)
          → length file ≤ n
          → (read_frame lim file ≡ err eof) ⊎ (read_frame lim file ≡ err unexpected_eof)
          → EndsAt (Torn (line ∷ lines) n 0) s (replay_loop lim fn (suc f) file s)
      at_part file few (inl e) = ended _ f file s e
      at_part [] few (inr e) = ended _ f [] s (unfold read_frame in refl)
      at_part (c ∷ file) few (inr e) = torn f (c ∷ file) s (omega arith, omega (arith, few)) e

      count : (j : ℕ) → j ≤ suc (length lines) → length (flat (take j (line ∷ lines))) ≤ n → j ≤ 0
      count zero h k = omega arith
      count (suc j) h k =
          let total = length-append (marshal (array_of line)) (flat (take j lines)) in
          absurd (omega (arith, total, k, short))

module _ {ℓ κ} {S : Type ℓ} (P : S → Type κ) (lim : Limits) (fn : S → List Value → Option S) where
  replay_loop-Recovers :
      ((s : S) (args : List Value) → P s → (s' : S) × (fn s args ≡ some s') × P s')
      → (lines : List (List Value)) (n f : ℕ) (s : S) → P s
      → length (take n (flat lines)) < f
      → All (λ line. Fits lim (array_of line)) lines
      → Recovers fn s lines n (replay_loop lim fn f (take n (flat lines)) s)
  replay_loop-Recovers total lines n zero s p h fits = absurd (omega arith)
  replay_loop-Recovers total [] n (suc f) s p h fits = rw (take_none n) (
      none_kept lim fn [] n f [] s (ended lim fn _ f [] s (unfold read_frame in refl)) (λ j k _. k))
  replay_loop-Recovers total (line ∷ lines) n (suc f) s p h fits =
      elim (Bool-cases (leb (length (marshal (array_of line))) n)) [
        | inl fitting ↦
            let m = length (marshal (array_of line)) in
            let (s', e, p') = total s line p in
            let split : n ≡ m + (n - m) = ground (arith, fitting) in
            let bytes = length-take n (flat (line ∷ lines)) in
            let others = length-take (n - m) (flat lines) in
            let sizes = length-append (marshal (array_of line)) (flat lines) in
            let pos = marshal_pos line in
            subst
              (λ k.
                Recovers fn s (line ∷ lines) k
                  (replay_loop lim fn (suc f) (take k (flat (line ∷ lines))) s))
              (sym split)
              (whole_line lim fn line lines (n - m) f s s' fits.0 e (
                replay_loop-Recovers total lines (n - m) f s' p'
                  (omega (arith, bytes, others, sizes, pos, split, h)) fits.1))
        | inr cut ↦ torn_line lim fn line lines n f s fits.0 (ground (arith, cut))
      ]

  -- Replaying what a crash has left of a log, the first n bytes of the file that Append made of a list
  -- of lines, runs the callback on the first lines, as many of them at least as lie in those bytes
  -- whole, and ends in the state that it leaves there, at the end of the file or on an error of the
  -- reader, if each line fits the wire and the callback returns on every line in the states that `P` admits,
  -- the first one among them, and stays in those.
  pub replay-torn :
      ((s : S) (args : List Value) → P s → (s' : S) × (fn s args ≡ some s') × P s')
      → (lines : List (List Value)) (n : ℕ) (s : S) → P s
      → All (λ line. Fits lim (array_of line)) lines
      → Recovers fn s lines n (replay lim fn (take n (append_all [] lines)) s)
  unfolding replay
  replay-torn total lines n s p fits = rw (append_all-flat [] lines) (
      replay_loop-Recovers total lines n (suc (length (take n (flat lines)))) s p (omega arith)
        fits)
