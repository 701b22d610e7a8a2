-- ===== src/Tests/Collections.antt =====
-- SADD and ZADD, at a store with a set and a sorted set.
use goredis_main.Prelude.{[], ◌∷◌, codes}
use goredis_main.Prelude.Int.{pos}
use goredis_main.Store.{Store, fresh, set, zset}
use goredis_main.Store.Sets.{sadd}
use goredis_main.Store.Sets.Laws.{Added, members_at, sadd_lem}
use goredis_main.Store.ZSets.{zadd}
use goredis_main.Store.ZSets.Scores.{Scored, scores_at, zadd_lem}

-- The score of b is 1.0.
abbrev tags : Store
tags = record {
  entries =
      (codes "t", fresh (set ((codes "a", tt) ∷ [])))
      ∷ (codes "z", fresh (zset ((codes "b", 0x3FF0000000000000) ∷ [])))
      ∷ [];
}

sadd_lem_example :
    Added tags
      (pos 0)
      (codes "t")
      (codes "a" ∷ codes "b" ∷ codes "b" ∷ [])
      (members_at tags (pos 0) (codes "t"))
      (sadd tags (pos 0) (codes "t") (codes "a" ∷ codes "b" ∷ codes "b" ∷ []))
sadd_lem_example = sadd_lem tags (pos 0) (codes "t") (codes "a" ∷ codes "b" ∷ codes "b" ∷ [])

zadd_lem_example :
    Scored tags
      (pos 0)
      (codes "z")
      ((codes "b", 0xC000000000000000) ∷ (codes "c", 0) ∷ [])
      (scores_at tags (pos 0) (codes "z"))
      (zadd tags (pos 0) (codes "z") ((codes "b", 0xC000000000000000) ∷ (codes "c", 0) ∷ []))
zadd_lem_example =
    zadd_lem tags (pos 0) (codes "z") ((codes "b", 0xC000000000000000) ∷ (codes "c", 0) ∷ [])
