-- ===== src/Aof/Recovery.antt =====
-- internal/aof/aof.go: what Append wrote, Replay runs again.
use goredis_main.Prelude.{
  ℕ, zero, suc, ◌<◌, ◌≡◌, refl, sym, ap, subst, ◌∙◌, List, [], ◌∷◌, ◌++◌, Option, none, some, Bytes,
  arith, length, length-append, All,
}
use goredis_main.Resp.Value.{Value, array_of, of_list, to_list, elems_of}
use goredis_main.Resp.Marshal.{marshal}
use goredis_main.Resp.Reader.{Limits, Result, ok, err, read_frame}
use goredis_main.Resp.Reader.RoundTrip.{Fits, read_frame-marshal}
use goredis_main.Aof.{Replayed, done, panicked, append, read_end, replay_loop, replay}

-- The file after Append was called on each line in turn.
abbrev pub append_all : Bytes → List (List Value) → Bytes
append_all file [] = file
append_all file (line ∷ lines) = append_all (append file line) lines

-- The bytes of the lines, one after the other.
abbrev pub flat : List (List Value) → Bytes
flat [] = []
flat (line ∷ lines) = marshal (array_of line) ++ flat lines

append_assoc : (xs ys zs : Bytes) → (xs ++ ys) ++ zs ≡ xs ++ (ys ++ zs)
append_assoc [] ys zs = refl
append_assoc (x ∷ xs) ys zs = ap (◌∷◌ x) (append_assoc xs ys zs)

append_nil : (xs : Bytes) → xs ++ [] ≡ xs
append_nil [] = refl
append_nil (x ∷ xs) = ap (◌∷◌ x) (append_nil xs)

pub append_all-flat :
    (file : Bytes) (lines : List (List Value)) → append_all file lines ≡ file ++ flat lines
unfolding append
append_all-flat file [] = sym (append_nil file)
append_all-flat file (line ∷ lines) =
    append_all-flat (file ++ marshal (array_of line)) lines
    ∙ append_assoc file (marshal (array_of line)) (flat lines)

pub to_list-of_list : (vs : List Value) → to_list (of_list vs) ≡ vs
to_list-of_list [] = refl
to_list-of_list (v ∷ vs) = ap (◌∷◌ v) (to_list-of_list vs)

pub marshal_pos : (vs : List Value) → 0 < length (marshal (array_of vs))
unfolding marshal
marshal_pos vs = omega arith

-- The callback ran on each line in turn, and returned each time.
pub data Ran {ℓ} {S : Type ℓ} (fn : S → List Value → Option S)
    : S → List (List Value) → S → Type ℓ where
  finished : (s : S) → Ran fn s [] s
  next :
      (s s' s'' : S) (line : List Value) (lines : List (List Value))
      → fn s line ≡ some s'
      → Ran fn s' lines s''
      → Ran fn s (line ∷ lines) s''

module _ {ℓ} {S : Type ℓ} (lim : Limits) (fn : S → List Value → Option S) where
  pub replay_loop_step :
      (f : ℕ) (file rest : Bytes) (s s' : S) (v : Value)
      → read_frame lim file ≡ ok (v, rest)
      → fn s (elems_of v) ≡ some s'
      → replay_loop lim fn (suc f) file s ≡ replay_loop lim fn f rest s'
  unfolding replay_loop
  replay_loop_step f file rest s s' v r e =
      subst (λ x. after_read x ≡ replay_loop lim fn f rest s') (sym r)
        (subst (λ o. after_call rest o ≡ replay_loop lim fn f rest s') (sym e) refl)
    where
      after_call : Bytes → Option S → Replayed S
      after_call rest o = elim o [ none ↦ panicked | some s' ↦ replay_loop lim fn f rest s' ]

      after_read : Result (Value × Bytes) → Replayed S
      after_read x = elim x [
        | err e ↦ read_end lim fn e s
        | ok (v, rest) ↦ elim (fn s (elems_of v)) [
          | none ↦ panicked
          | some s' ↦ replay_loop lim fn f rest s'
        ]
      ]

  replay_loop-flat :
      (f : ℕ) {s s' : S} {lines : List (List Value)}
      → length (flat lines) < f
      → All (λ line. Fits lim (array_of line)) lines
      → Ran fn s lines s'
      → replay_loop lim fn f (flat lines) s ≡ done s'
  unfolding replay_loop
  replay_loop-flat zero h fits ran = absurd (omega arith)
  replay_loop-flat (suc f) h fits (finished s) = unfold read_frame in refl
  replay_loop-flat (suc f) h fits (next s s' s'' line lines e ran) =
      let pos = marshal_pos line in
      let total = length-append (marshal (array_of line)) (flat lines) in
      let read = read_frame-marshal lim (array_of line) (flat lines) fits.0 in
      let called = ap (fn s) (to_list-of_list line) ∙ e in
      replay_loop_step f (flat (line ∷ lines)) (flat lines) s s' (array_of line) read called
      ∙ replay_loop-flat f (omega (arith, pos, total, h)) fits.1 ran

  -- Replaying the file that Append made of a list of lines runs the callback on those lines, in their
  -- order, and ends in the state that it leaves, if each line fits the wire and the callback returns
  -- on each.
  pub replay-append_all :
      (lines : List (List Value)) (s s' : S)
      → All (λ line. Fits lim (array_of line)) lines
      → Ran fn s lines s'
      → replay lim fn (append_all [] lines) s ≡ done s'
  unfolding replay
  replay-append_all lines s s' fits ran =
      rw (append_all-flat [] lines)
        (replay_loop-flat (suc (length (flat lines))) (omega arith) fits ran)
