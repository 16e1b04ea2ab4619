-- ===== src/Base/Dict/Entries.antt =====
-- The entries of a map that a test keeps, and their number.
use Prim.Native.Nat.{ℕ, ◌+◌}
use mathlib.Core.Bool.{Bool, not, ◌&&◌}
use mathlib.Core.List.{[], ◌∷◌}
use mathlib.Core.Option.{Option, none, some}
use mathlib.Core.Path.{◌≡◌, refl, sym, ap, ◌∙◌}
use native.Mathlib.Omega.{arith}
use sqliteproxy.Base.Dict.{Dict, lookup, insert, delete, lookup-insert}
use sqliteproxy.Base.Tests.{if◌then◌else◌}
use sqliteproxy.Base.Texts.{Text, text_eq, text_eq_iff}

module _ {V : Type 0} where
  unfoldable pub keep : (Text → V → Bool) → Dict V → Dict V
  keep test [] = []
  keep test ((k, v) ∷ m) = let rest = keep test m in if test k v then (k, v) ∷ rest else rest

  unfoldable pub tally : (Text → V → Bool) → Dict V → ℕ
  tally test [] = 0
  tally test ((k, v) ∷ m) = (if test k v then 1 else 0) + tally test m

  abbrev pub other_than : Text → Text → V → Bool
  other_than id k v = not (text_eq k id)

  abbrev pub when_kept : (Text → V → Bool) → Text → Option V → Option V
  when_kept test k none = none
  when_kept test k (some v) = if test k v then some v else none

  -- A map has one entry for a key.
  abbrev pub IsMap : Dict V → Type 0
  IsMap [] = Unit
  IsMap ((k, v) ∷ m) = (lookup k m ≡ none) × IsMap m

  lookup-keep-none :
      (test : Text → V → Bool) (k : Text) (m : Dict V)
      → lookup k m ≡ none
      → lookup k (keep test m) ≡ none
  unfolding lookup keep
  lookup-keep-none test k [] h = refl
  lookup-keep-none test k ((j, v) ∷ m) h = ground (arith, lookup-keep-none test k m)

  pub lookup-keep :
      (test : Text → V → Bool) (k : Text) (m : Dict V)
      → IsMap m
      → lookup k (keep test m) ≡ when_kept test k (lookup k m)
  unfolding lookup keep
  lookup-keep test k [] u = refl
  lookup-keep test k ((j, v) ∷ m) u =
      ground (arith, text_eq_iff j k, lookup-keep test k m u.1, lookup-keep-none test j m u.0)

  pub keep-IsMap : (test : Text → V → Bool) (m : Dict V) → IsMap m → IsMap (keep test m)
  unfolding keep
  keep-IsMap test [] u = tt
  keep-IsMap test ((j, v) ∷ m) u =
      ground (arith, lookup-keep-none test j m u.0, keep-IsMap test m u.1)

  pub tally-keep :
      (count test : Text → V → Bool) (m : Dict V)
      → tally count (keep test m) ≡ tally (λ k v. test k v && count k v) m
  unfolding keep tally
  tally-keep count test [] = refl
  tally-keep count test ((j, v) ∷ m) = ground (arith, tally-keep count test m)

  tally-absent :
      (count : Text → V → Bool) (id : Text) (m : Dict V)
      → lookup id m ≡ none
      → tally (λ k v. other_than id k v && count k v) m ≡ tally count m
  unfolding lookup tally
  tally-absent count id [] h = refl
  tally-absent count id ((j, v) ∷ m) h = ground (arith, h, tally-absent count id m)

  pub tally-insert :
      (count : Text → V → Bool) (id : Text) (v : V) (m : Dict V)
      → IsMap m
      → tally count (insert id v m)
        ≡ (if count id v then 1 else 0) + tally (λ k w. other_than id k w && count k w) m
  unfolding insert tally
  tally-insert count id v [] u = refl
  tally-insert count id v ((j, w) ∷ m) u =
      ground (arith, text_eq_iff j id, tally-absent count j m u.0, tally-insert count id v m u.1)

  pub insert-IsMap : (id : Text) (v : V) (m : Dict V) → IsMap m → IsMap (insert id v m)
  unfolding insert lookup
  insert-IsMap id v [] u = (refl, tt)
  insert-IsMap id v ((j, w) ∷ m) u = ground (
    arith,
    u,
    text_eq_iff j id,
    text_eq_iff id j,
    lookup-insert id j v m,
    insert-IsMap id v m u.1,
  )

  pub delete-keep : (id : Text) (m : Dict V) → delete id m ≡ keep (other_than id) m
  unfolding delete keep
  delete-keep id [] = refl
  delete-keep id ((j, w) ∷ m) = ground (arith, delete-keep id m)

  pub keep-absent : (id : Text) (m : Dict V) → lookup id m ≡ none → keep (other_than id) m ≡ m
  unfolding lookup keep
  keep-absent id [] h = refl
  keep-absent id ((j, w) ∷ m) h = ground (arith, h, keep-absent id m)

  -- Two maps with the same entries, in whatever order.
  pub record SameEntries (m n : Dict V) : Type 0 where
    pub left_map : IsMap m
    pub right_map : IsMap n
    pub lookups : (k : Text) → lookup k m ≡ lookup k n
    pub tallies : (count : Text → V → Bool) → tally count m ≡ tally count n

  pub SameEntries-keep :
      (test : Text → V → Bool) (m n : Dict V)
      → SameEntries m n
      → SameEntries (keep test m) (keep test n)
  SameEntries-keep test m n s = record {
    left_map = keep-IsMap test m s.left_map;
    right_map = keep-IsMap test n s.right_map;
    lookups = λ k.
        lookup-keep test k m s.left_map
        ∙ ap (when_kept test k) (s.lookups k)
        ∙ sym (lookup-keep test k n s.right_map);
    tallies = λ count. tally-keep count test m ∙ s.tallies _ ∙ sym (tally-keep count test n);
  }

  lookup-other :
      (id k : Text) (v : V) (m n : Dict V)
      → SameEntries m n
      → lookup k (insert id v m) ≡ lookup k ((id, v) ∷ keep (other_than id) n)
  unfolding lookup
  lookup-other id k v m n s = ground (
    arith,
    lookup-insert id k v m,
    s.lookups k,
    lookup-keep (other_than id) k n s.right_map,
    text_eq_iff k id,
    text_eq_iff id k,
  )

  -- A new value for a key replaces the one that it had.
  pub SameEntries-insert :
      (id : Text) (v : V) (m n : Dict V)
      → SameEntries m n
      → SameEntries (insert id v m) ((id, v) ∷ keep (other_than id) n)
  unfolding tally
  SameEntries-insert id v m n s = record {
    left_map = insert-IsMap id v m s.left_map;
    right_map = (
      ground (arith, lookup-keep (other_than id) id n s.right_map, text_eq_iff id id),
      keep-IsMap (other_than id) n s.right_map,
    );
    lookups = λ k. lookup-other id k v m n s;
    tallies = λ count. ground (
      arith,
      tally-insert count id v m s.left_map,
      s.tallies (λ k w. other_than id k w && count k w),
      tally-keep count (other_than id) n,
    );
  }
