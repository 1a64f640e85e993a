-- ===== src/Map/Insert/Order.antt =====
-- Where a new entry belongs among the entries of a map.
use mathlib.Core.List.{append-nil, append_assoc}
use sandnix.Prelude.{
  ℕ, ◌≤◌, ◌<◌, ◌≡◌, refl, sym, ap, ◌∙◌, true, false, ltb, List, [], ◌∷◌, ◌++◌, arith, if◌then◌else◌,
}
use sandnix.Map.{Color, left, right}
use sandnix.Map.Tree.{Tree, leaf, branch, entries}
use sandnix.Map.Context.{Frame, frame, plug}
use sandnix.Map.Lookup.{Below}

-- The new entry in front of the first one whose key has no smaller rank.
abbrev pub insert_entry : (ℕ → ℕ) → (key value : ℕ) → List (ℕ × ℕ) → List (ℕ × ℕ)
insert_entry rank key value [] = (key, value) ∷ []
insert_entry rank key value ((k, v) ∷ es) =
    if ltb (rank k) (rank key)
    then (k, v) ∷ insert_entry rank key value es
    else (key, value) ∷ (k, v) ∷ es

-- The entries in front of a hole, and those behind it.
abbrev pub in_front : List Frame → List (ℕ × ℕ)
in_front [] = []
in_front (frame left a c k v r ∷ fs) = in_front fs
in_front (frame right a c k v r ∷ fs) = in_front fs ++ (entries r ++ (k, v) ∷ [])

abbrev pub behind : List Frame → List (ℕ × ℕ)
behind [] = []
behind (frame left a c k v r ∷ fs) = (k, v) ∷ (entries r ++ behind fs)
behind (frame right a c k v r ∷ fs) = behind fs

pub entries-in_front :
    (fs : List Frame) (t : Tree) → entries (plug fs t) ≡ in_front fs ++ (entries t ++ behind fs)
entries-in_front [] t = sym (append-nil (entries t))
entries-in_front (frame left a c k v r ∷ fs) t =
    entries-in_front fs (branch t a c k v r)
    ∙ ap (λ es. in_front fs ++ es) (append_assoc (entries t) ((k, v) ∷ entries r) (behind fs))
entries-in_front (frame right a c k v r ∷ fs) t =
    entries-in_front fs (branch r a c k v t)
    ∙ ap (λ es. in_front fs ++ es)
        (append_assoc (entries r) ((k, v) ∷ entries t) (behind fs)
          ∙ sym (append_assoc (entries r) ((k, v) ∷ []) (entries t ++ behind fs)))
    ∙ sym (append_assoc (in_front fs) (entries r ++ (k, v) ∷ []) (entries t ++ behind fs))

module _ (rank : ℕ → ℕ) (key value : ℕ) where
  abbrev pub AllLess : List (ℕ × ℕ) → Type 0
  AllLess [] = Unit {0}
  AllLess ((k, v) ∷ es) = (rank k < rank key) × AllLess es

  abbrev pub StartsNotLess : List (ℕ × ℕ) → Type 0
  StartsNotLess [] = Unit {0}
  StartsNotLess ((k, v) ∷ es) = rank key ≤ rank k

  pub AllLess-append : (xs ys : List (ℕ × ℕ)) → AllLess xs → AllLess ys → AllLess (xs ++ ys)
  AllLess-append [] ys d e = e
  AllLess-append ((k, v) ∷ xs) ys d e = (d.0, AllLess-append xs ys (d.1) e)

  pub Below-AllLess : (b : ℕ) (t : Tree) → b ≤ rank key → Below rank b t → AllLess (entries t)
  Below-AllLess b leaf le s = tt
  Below-AllLess b (branch l a c k v r) le s =
      let lt = s.1 in
      AllLess-append (entries l) _ (Below-AllLess b l le (s.0))
        (omega arith, Below-AllLess b r le (s.2))

  -- It belongs between the smaller ones and the others.
  pub insert_entry-append :
      (xs ys : List (ℕ × ℕ))
      → AllLess xs
      → StartsNotLess ys
      → insert_entry rank key value (xs ++ ys) ≡ xs ++ (key, value) ∷ ys
  insert_entry-append [] [] d e = refl
  insert_entry-append [] ((k, v) ∷ ys) d e =
      let no : ltb (rank k) (rank key) ≡ false = ground arith in rw no refl
  insert_entry-append ((k, v) ∷ xs) ys d e =
      let yes : ltb (rank k) (rank key) ≡ true = let lt = d.0 in ground arith in
      rw yes (ap (λ es. (k, v) ∷ es) (insert_entry-append xs ys (d.1) e))

  -- A position between the smaller ones and the others.
  pub record Splits (fs : List Frame) : Type 0 where
    pub less : AllLess (in_front fs)
    pub not_less : StartsNotLess (behind fs)

  pub Splits-nil : Splits []
  Splits-nil = record { less = tt; not_less = tt }

  pub Splits-left :
      (a : ℕ) (c : Color) (k v : ℕ) (r : Tree) (fs : List Frame)
      → rank key ≤ rank k
      → Splits fs
      → Splits (frame left a c k v r ∷ fs)
  Splits-left a c k v r fs le s = record { less = s.less; not_less = le }

  pub Splits-right :
      (a : ℕ) (c : Color) (k v : ℕ) (l : Tree) (fs : List Frame)
      → rank k < rank key
      → Below rank (rank k) l
      → Splits fs
      → Splits (frame right a c k v l ∷ fs)
  Splits-right a c k v l fs lt below s = record {
    less =
        AllLess-append (in_front fs) _ s.less
          (AllLess-append (entries l) _ (Below-AllLess (rank k) l (omega arith) below) (lt, tt));
    not_less = s.not_less;
  }
