-- ===== src/Store/Atomic.antt =====
-- internal/store: what a failing operation does to the store.
use goredis_main.Prelude.{◌≡◌}
use goredis_main.Store.{Store, StoreError, Result, err}

abbrev pub Atomic {ℓ} : {A : Type ℓ} → Store → Store × Result A → Type ℓ
Atomic s r = (c : StoreError) → r.1 ≡ err c → r.0 ≡ s
