-- ===== src/Command/Strings/Safe.antt =====
-- The handlers of strings.go are safe on the arguments that their arity admits.
use goredis_main.Prelude.{
  ◌+◌, ◌<◌, ◌%◌, ◌≡◌, refl, List, [], ◌∷◌, Option, none, some, Bytes, length, ◌==◌, if_intro, arith,
}
use goredis_main.Prelude.Int.{ℤ}
use goredis_main.Strconv.{parse_int}
use goredis_main.GoMap.{Map, insert, size}
use goredis_main.Resp.Value.{Value, str_of, ok_reply}
use goredis_main.Store.Invariant.{IsValid}
use goredis_main.Command.{World, ◌>>=◌}
use goredis_main.Store.Strings
use goredis_main.Command.Returns.{
  Returns, returns, reads-Returns, writes-Returns, SafeOn, Exactly, AtLeast, with_one, with_two,
  with_three, with_two_more,
}
use goredis_main.Store.Strings.{no_options}
use goredis_main.Store.Strings.Invariant.{
  set-IsValid, get_set-IsValid, mset-IsValid, incr_by-IsValid, append-IsValid,
}
use goredis_main.GoMap.Laws.{size-insert_pos}
use goredis_main.Command.Strings.{
  Parsed, parsed, refused, set_options, set_parsed, set, get, get_set, set_nx, set_ex_by, set_ex,
  pair_args, mset, mget, incr, decr, incr_parsed, incr_by, decr_by, append_cmd, strlen,
}

-- An even number of arguments makes a map, which is empty only if there were none.
pub pair_args_total :
    (args : List Value) (m : Map Bytes)
    → length args % 2 ≡ 0
    → 0 < size m + length args
    → (m' : Map Bytes) × (pair_args args m ≡ some m') × (0 < size m')
unfolding pair_args
pair_args_total [] m h p = (m, refl, omega arith)
pair_args_total (k ∷ []) m h p = absurd (omega arith)
pair_args_total (k ∷ v ∷ args) m h p =
    pair_args_total args (insert (str_of k) (str_of v) m) (omega arith)
      (omega (arith, size-insert_pos (str_of k) (str_of v) m))

set_parsed-Safe :
    (w : World) (key value : Bytes) (p : Parsed)
    → IsValid w.store
    → Returns w (set_parsed w key value p)
unfolding set_parsed
set_parsed-Safe w key value (refused v) ok = reads-Returns w v ok
set_parsed-Safe w key value (parsed opts) ok =
    writes-Returns w _ _ (set-IsValid w.store w.now w.later key value opts ok)

pub set-Safe : SafeOn (AtLeast 2) set
unfolding set
set-Safe d w args h ok =
    with_two_more (λ args. Returns w (set d w args))
      (λ a b args. set_parsed-Safe w (str_of a) (str_of b) (set_options args none no_options) ok)
      args h

pub get-Safe : SafeOn (Exactly 1) get
unfolding get
get-Safe d w args h ok =
    with_one (λ args. Returns w (get d w args)) (λ a. reads-Returns w _ ok) args h

pub get_set-Safe : SafeOn (Exactly 2) get_set
unfolding get_set
get_set-Safe d w args h ok =
    with_two (λ args. Returns w (get_set d w args))
      (λ a b. writes-Returns w _ _ (get_set-IsValid w.store w.now (str_of a) (str_of b) ok)) args h

pub set_nx-Safe : SafeOn (Exactly 2) set_nx
unfolding set_nx
set_nx-Safe d w args h ok =
    with_two (λ args. Returns w (set_nx d w args))
      (λ a b. writes-Returns w _ _ (set-IsValid w.store w.now w.later (str_of a) (str_of b) _ ok))
      args h

set_ex_by-Safe :
    (w : World) (key : Bytes) (a b c : Value) (n : Option ℤ)
    → IsValid w.store
    → Returns w (set_ex_by w key (a ∷ b ∷ c ∷ []) n)
unfolding set_ex_by
set_ex_by-Safe w key a b c none ok = reads-Returns w _ ok
set_ex_by-Safe w key a b c (some n) ok =
    writes-Returns w _ _ (set-IsValid w.store w.now w.later key (str_of c) _ ok)

pub set_ex-Safe : SafeOn (Exactly 3) set_ex
unfolding set_ex
set_ex-Safe d w args h ok =
    with_three (λ args. Returns w (set_ex d w args))
      (λ a b c. set_ex_by-Safe w (str_of a) a b c (parse_int (str_of b)) ok) args h

pub mset-Safe : SafeOn (AtLeast 2) mset
unfolding mset
mset-Safe d w args h ok =
    if_intro (Returns w) (length args % 2 == 0) _ _ (λ even. stored (ground arith))
      (λ _. reads-Returns w _ ok)
  where
    stored :
        length args % 2 ≡ 0
        → Returns w (
            pair_args args [] >>= λ pairs.
            some (record w { store = Strings.mset w.store pairs }, ok_reply))
    stored even =
        let (m, e, _) = pair_args_total args [] even (omega arith) in
        rw e (
          returns _ _ (mset-IsValid w.store m ok)
            (record { same_in_tx = refl; same_queue = refl; same_error = refl }))

pub mget-Safe : SafeOn (AtLeast 1) mget
unfolding mget
mget-Safe d w args h ok = reads-Returns w _ ok

pub incr-Safe : SafeOn (Exactly 1) incr
unfolding incr
incr-Safe d w args h ok =
    with_one (λ args. Returns w (incr d w args))
      (λ a. writes-Returns w _ _ (incr_by-IsValid w.store w.now (str_of a) _ ok)) args h

pub decr-Safe : SafeOn (Exactly 1) decr
unfolding decr
decr-Safe d w args h ok =
    with_one (λ args. Returns w (decr d w args))
      (λ a. writes-Returns w _ _ (incr_by-IsValid w.store w.now (str_of a) _ ok)) args h

incr_parsed-Safe :
    (sign : ℤ → ℤ) (w : World) (key : Bytes) (n : Option ℤ)
    → IsValid w.store
    → Returns w (incr_parsed sign w key n)
incr_parsed-Safe sign w key none ok = reads-Returns w _ ok
incr_parsed-Safe sign w key (some n) ok =
    writes-Returns w _ _ (incr_by-IsValid w.store w.now key (sign n) ok)

pub incr_by-Safe : SafeOn (Exactly 2) incr_by
unfolding incr_by
incr_by-Safe d w args h ok =
    with_two (λ args. Returns w (incr_by d w args))
      (λ a b. incr_parsed-Safe _ w (str_of a) (parse_int (str_of b)) ok) args h

pub decr_by-Safe : SafeOn (Exactly 2) decr_by
unfolding decr_by
decr_by-Safe d w args h ok =
    with_two (λ args. Returns w (decr_by d w args))
      (λ a b. incr_parsed-Safe _ w (str_of a) (parse_int (str_of b)) ok) args h

pub append_cmd-Safe : SafeOn (Exactly 2) append_cmd
unfolding append_cmd
append_cmd-Safe d w args h ok =
    with_two (λ args. Returns w (append_cmd d w args))
      (λ a b. writes-Returns w _ _ (append-IsValid w.store w.now (str_of a) (str_of b) ok)) args h

pub strlen-Safe : SafeOn (Exactly 1) strlen
unfolding strlen
strlen-Safe d w args h ok =
    with_one (λ args. Returns w (strlen d w args)) (λ a. reads-Returns w _ ok) args h
