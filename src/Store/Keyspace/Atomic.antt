-- ===== src/Store/Keyspace/Atomic.antt =====
-- internal/store/store.go: a failing RENAME.
use goredis_main.Prelude.{refl, Option, none, some, Bytes}
use goredis_main.Prelude.Int.{ℤ}
use goredis_main.Store.{Entry, Store, get_locked}
use goredis_main.Store.Atomic.{Atomic}
use goredis_main.Store.Keyspace.{move_entry, rename}

move_entry-Atomic :
    (s : Store) (src dst : Bytes) (o : Option Entry) → Atomic s (move_entry o src dst s)
unfolding move_entry
move_entry-Atomic s src dst none c h = refl
move_entry-Atomic s src dst (some e) c h = cc

pub rename-Atomic : (s : Store) (now : ℤ) (src dst : Bytes) → Atomic s (rename s now src dst)
unfolding rename
rename-Atomic s now src dst = move_entry-Atomic s src dst (get_locked s now src)
