-- ===== src/Command/Acts.antt =====
-- How handlers act on the store: the same way whatever the hub, the connection and the log are, and
-- not at all where they reply with an error or are no writers.
use goredis_main.Prelude.{
  subst, ◌≡◌, refl, Bool, true, false, List, Option, none, some, Bytes, ◌∙◌, sym,
}
use goredis_main.Resp.Value.{Value, is_error}
use goredis_main.Pubsub.{Hub}
use goredis_main.Store.{Store, StoreError, Result, ok, err}
use goredis_main.Store.Atomic.{Atomic}
use goredis_main.Command.{
  World, Context, Outcome, Dispatcher, Handler, ◌>>=◌, flag_reply, opt_reply, reply_by, reads,
  writes,
}

-- The world of another connection over the same store at the same time.
abbrev pub twin : World → Hub → Context → List (List Value) → World
twin w hub ctx log = record w { hub = hub; ctx = ctx; log = log }

-- What no handler but those of the transactions changes.
pub record Frame (w w' : World) : Type 0 where
  pub same_now : w'.now ≡ w.now
  pub same_later : w'.later ≡ w.later
  pub same_log : w'.log ≡ w.log
  pub same_in_tx : w'.ctx.in_tx ≡ w.ctx.in_tx
  pub same_on_write : w'.ctx.on_write ≡ w.ctx.on_write

pub Frame-refl : (w : World) → Frame w w
Frame-refl w = record {
  same_now = refl;
  same_later = refl;
  same_log = refl;
  same_in_tx = refl;
  same_on_write = refl;
}

-- The outcomes of one handler, a writer or not, in a world and in a twin of it.
pub data Acts (writer : Bool) (w u : World) : Outcome → Outcome → Type 0 where
  panics : Acts writer w u none none
  acts :
      (w' : World) (hub : Hub) (ctx : Context) (log : List (List Value)) (v v' : Value)
      → is_error v ≡ is_error v'
      → (is_error v ≡ true → w'.store ≡ w.store)
      → (writer ≡ false → w'.store ≡ w.store)
      → Frame w w'
      → Frame u (twin w' hub ctx log)
      → Acts writer w u (some (w', v)) (some (twin w' hub ctx log, v'))

abbrev pub ActsOn : Bool → Handler → Type 0
ActsOn writer h =
    (d d' : Dispatcher) (w : World) (hub : Hub) (ctx : Context) (log : List (List Value))
    (args : List Value)
    → Acts writer w (twin w hub ctx log) (h d w args) (h d' (twin w hub ctx log) args)

pub bind-Acts {ℓ} :
    {A : Type ℓ} {writer : Bool} {w u : World} (o : Option A) {f g : A → Outcome}
    → ((a : A) → Acts writer w u (f a) (g a))
    → Acts writer w u (o >>= f) (o >>= g)
bind-Acts none h = panics
bind-Acts (some a) h = h a

module _ (w : World) (hub : Hub) (ctx : Context) (log : List (List Value)) where
  pub reads-Acts :
      (writer : Bool) (v : Value)
      → Acts writer w (twin w hub ctx log) (reads w v) (reads (twin w hub ctx log) v)
  reads-Acts writer v =
      acts w hub ctx log v v refl (λ _. refl) (λ _. refl) (Frame-refl w)
        (Frame-refl (twin w hub ctx log))

  pub stores-Acts :
      (s : Store) (v : Value)
      → (is_error v ≡ true → s ≡ w.store)
      → Acts true w
          (twin w hub ctx log)
          (some (record w { store = s }, v))
          (some (record (twin w hub ctx log) { store = s }, v))
  stores-Acts s v same =
      acts (record w { store = s }) hub ctx log v v refl same (λ e. cc)
        (record {
          same_now = refl;
          same_later = refl;
          same_log = refl;
          same_in_tx = refl;
          same_on_write = refl;
        })
        (record {
          same_now = refl;
          same_later = refl;
          same_log = refl;
          same_in_tx = refl;
          same_on_write = refl;
        })

  pub writes-Acts {ℓ} :
      {A : Type ℓ} (f : A → Value) (r : Store × A)
      → (is_error (f r.1) ≡ true → r.0 ≡ w.store)
      → Acts true w (twin w hub ctx log) (writes w f r) (writes (twin w hub ctx log) f r)
  writes-Acts f (s, a) same = stores-Acts s (f a) same

-- A reply that is an error is that of a failed operation.
failed_reply {ℓ} :
    {A : Type ℓ} (f : A → Value) (r : Result A)
    → ((a : A) → is_error (f a) ≡ false)
    → is_error (reply_by f r) ≡ true
    → (c : StoreError) × (r ≡ err c)
failed_reply f (err c) fine h = (c, refl)
failed_reply f (ok a) fine h = absurd (true_false (sym h ∙ fine a))
  where
    true_false : true ≡ false → ⊥
    true_false e = cc

pub results-Acts {ℓ} :
    {A : Type ℓ} (w : World) (hub : Hub) (ctx : Context) (log : List (List Value)) (f : A → Value)
    (r : Store × Result A)
    → ((a : A) → is_error (f a) ≡ false)
    → Atomic w.store r
    → Acts true w
        (twin w hub ctx log)
        (writes w (reply_by f) r)
        (writes (twin w hub ctx log) (reply_by f) r)
results-Acts w hub ctx log f r fine atomic =
    writes-Acts w hub ctx log (reply_by f) r
      (λ h. let (c, e) = failed_reply f r.1 fine h in atomic c e)

-- The replies below are no errors.
pub opt_fine : (o : Option Bytes) → is_error (opt_reply o) ≡ false
opt_fine none = refl
opt_fine (some s) = refl

pub flag_fine : (b : Bool) {A : Type 0} → is_error (flag_reply b) ≡ true → A
flag_fine true h = cc
flag_fine false h = cc

pub some-inj : {A : Type 0} {x y : A} → some x ≡ some y → x ≡ y
some-inj h = cc

pub no_result : {A B : Type 0} {x : A} → none ≡ some x → B
no_result h = cc

-- The run in the twin, and what it has in common with a run that returned `r`.
pub record Extracted (writer : Bool) (w u : World) (o' : Outcome) (r : World × Value) : Type 0 where
  pub hub : Hub
  pub ctx : Context
  pub log : List (List Value)
  pub reply : Value
  pub result : o' ≡ some (twin r.0 hub ctx log, reply)
  pub same_error : is_error r.1 ≡ is_error reply
  pub on_error : is_error r.1 ≡ true → r.0.store ≡ w.store
  pub on_read : writer ≡ false → r.0.store ≡ w.store
  pub frame : Frame w r.0
  pub frame_twin : Frame u (twin r.0 hub ctx log)

pub extract :
    {writer : Bool} {w u : World} {o o' : Outcome} (r : World × Value)
    → Acts writer w u o o'
    → o ≡ some r
    → Extracted writer w u o' r
extract r panics e = no_result e
extract {writer} {w} {u} r (acts w' hub ctx log v v' se oe or f f') e =
    subst (λ x. Extracted writer w u (some (twin w' hub ctx log, v')) x) (some-inj e)
      (record {
        hub = hub;
        ctx = ctx;
        log = log;
        reply = v';
        result = refl;
        same_error = se;
        on_error = oe;
        on_read = or;
        frame = f;
        frame_twin = f';
      })
