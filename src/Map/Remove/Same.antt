-- ===== src/Map/Remove/Same.antt =====
-- Trees with the same entries in their order, of the same nodes.
use mathlib.Core.List.{append_assoc}
use sandnix.Prelude.{ℕ, ◌≡◌, refl, sym, ap₂, ◌∙◌, List, [], ◌∷◌, ◌++◌, arith}
use sandnix.Nodes.{Ptr}
use sandnix.Map.{Color, Side, left, right}
use sandnix.Map.Tree.{Tree, leaf, branch, join, entries, count}
use sandnix.Map.Context.{Frame, frame, plug}
use sandnix.Map.Remove.Paint.{blackened}

pub record IsSame (t u : Tree) : Type 0 where
  pub list : entries t ≡ entries u
  pub nodes : (p : Ptr) → count p t ≡ count p u

pub IsSame-refl : (t : Tree) → IsSame t t
IsSame-refl t = record { list = refl; nodes = λ p. refl }

pub IsSame-trans : (t u w : Tree) → IsSame t u → IsSame u w → IsSame t w
IsSame-trans t u w d e = record { list = d.list ∙ e.list; nodes = λ p. d.nodes p ∙ e.nodes p }

pub IsSame-join :
    (side : Side) (t t' : Tree) (a : Ptr) (c c' : Color) (k v : ℕ) (r r' : Tree)
    → IsSame t t'
    → IsSame r r'
    → IsSame (join side t a c k v r) (join side t' a c' k v r')
IsSame-join left t t' a c c' k v r r' d e = record {
  list = ap₂ (λ es fs. es ++ (k, v) ∷ fs) d.list e.list;
  nodes = λ p. let x = d.nodes p in let y = e.nodes p in omega arith;
}
IsSame-join right t t' a c c' k v r r' d e = record {
  list = ap₂ (λ es fs. es ++ (k, v) ∷ fs) e.list d.list;
  nodes = λ p. let x = d.nodes p in let y = e.nodes p in omega arith;
}

pub IsSame-blackened : (t : Tree) → IsSame (blackened t) t
IsSame-blackened leaf = IsSame-refl leaf
IsSame-blackened (branch l a c k v r) = record { list = refl; nodes = λ p. refl }

pub IsSame-turn :
    (side : Side) (a b : Ptr) (x y z : Tree) (ca cb ca' cb' : Color) (ka va kb vb : ℕ)
    → IsSame
        (join side (join side x a ca ka va y) b cb kb vb z)
        (join side x a ca' ka va (join side y b cb' kb vb z))
IsSame-turn left a b x y z ca cb ca' cb' ka va kb vb = record {
  list = append_assoc (entries x) ((ka, va) ∷ entries y) ((kb, vb) ∷ entries z);
  nodes = λ p. omega arith;
}
IsSame-turn right a b x y z ca cb ca' cb' ka va kb vb = record {
  list = sym (append_assoc (entries z) ((kb, vb) ∷ entries y) ((ka, va) ∷ entries x));
  nodes = λ p. omega arith;
}

pub IsSame-plug : (fs : List Frame) (t u : Tree) → IsSame t u → IsSame (plug fs t) (plug fs u)
IsSame-plug [] t u d = d
IsSame-plug (frame side a c k v r ∷ fs) t u d =
    IsSame-plug fs (join side t a c k v r) (join side u a c k v r)
      (IsSame-join side t u a c c k v r r d (IsSame-refl r))

pub IsSame-sym : (t u : Tree) → IsSame t u → IsSame u t
IsSame-sym t u d = record { list = sym d.list; nodes = λ p. sym (d.nodes p) }
