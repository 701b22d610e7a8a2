-- ===== src/Store/Live.antt =====
-- What clients can see of the keyspace, the live entry under each key, and how writes change it.
use goredis_main.Prelude.{
  ◌≡◌, refl, true, false, Option, none, some, Bytes, bytes_eq, arith, if◌then◌else◌,
}
use goredis_main.Prelude.Int.{ℤ, ◌≤ℤ◌}
use goredis_main.GoMap.{lookup}
use goredis_main.GoMap.Laws.{lookup-insert, lookup-delete}
use goredis_main.Store.{Payload, Entry, Store, fresh, expired, put, drop_key, get_locked}

-- The entry as a lookup returns it.
abbrev pub visible : ℤ → Entry → Option Entry
visible now e = if expired e now then none else some e

pub get_locked-put :
    (s : Store) (now : ℤ) (k j : Bytes) (e : Entry)
    → get_locked (put k e s) now j ≡ (if bytes_eq k j then visible now e else get_locked s now j)
unfolding get_locked
get_locked-put s now k j e = rw (lookup-insert k j e s.entries) (ground arith)

pub get_locked-drop_key :
    (s : Store) (now : ℤ) (k j : Bytes)
    → get_locked (drop_key k s) now j ≡ (if bytes_eq k j then none else get_locked s now j)
unfolding get_locked
get_locked-drop_key s now k j = rw (lookup-delete k j s.entries) (ground arith)

-- What a lookup returns has not expired.
pub get_locked_live :
    (s : Store) (now : ℤ) (k : Bytes) {e : Entry}
    → get_locked s now k ≡ some e
    → expired e now ≡ false
unfolding get_locked
get_locked_live s now k h = ground arith

pub get_locked_stored :
    (s : Store) (now : ℤ) (k : Bytes) {e : Entry}
    → get_locked s now k ≡ some e
    → lookup k s.entries ≡ some e
unfolding get_locked
get_locked_stored s now k h = ground arith

-- A new payload keeps the expiry, and so the life, of an entry.
pub expired-payload :
    (e : Entry) (p : Payload) (now : ℤ) → expired (record e { payload = p }) now ≡ expired e now
unfolding expired
expired-payload e p now = refl

pub expired-fresh : (p : Payload) (now : ℤ) → expired (fresh p) now ≡ false
unfolding expired
expired-fresh p now = refl

-- Time does not bring an entry back.
pub expired_mono :
    (e : Entry) (now later : ℤ) → now ≤ℤ later → expired e now ≡ true → expired e later ≡ true
unfolding expired
expired_mono e now later h x = ground arith
