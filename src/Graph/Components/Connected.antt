-- ===== src/Graph/Components/Connected.antt =====
-- libs/graph/hierarchy.py: the roots that the loop over the edges leaves are the connected
-- components of the edges that it does not skip.
use s3ntinel.Prelude.{
  ℕ, suc, ◌+◌, ◌<◌, ◌≡◌, refl, sym, subst, ap, ◌∙◌, ◌↔◌, ◌⊎◌, inl, inr, Option-cases, Option, none,
  some, List, [], ◌∷◌, ◌++◌, String, arith, length, append_assoc, append-nil,
}
use s3ntinel.Windows.Doubles.{Doubles}
use s3ntinel.Graph.Components.{Forest, Edge, link_of, links_of, join_edges, union}
use s3ntinel.Graph.Components.Roots.{IsNode, Implements}
use s3ntinel.Graph.Components.Unites.{Unites, union-Unites}

abbrev pub Links : Type 0
Links = List (String × String)

abbrev pub Among : String → String → Links → Type 0
Among a b [] = ⊥
Among a b (link ∷ links) = (link.0 ≡ a) × (link.1 ≡ b) ⊎ Among a b links

-- There is a path of links, each of which may be walked in both directions.
pub data Connected (links : Links) (x : String) : String → Type 0 where
  here : Connected links x x
  forth : {y z : String} → Connected links x y → Among y z links → Connected links x z
  back : {y z : String} → Connected links x y → Among z y links → Connected links x z

Connected-trans :
    {links : Links} {x y z : String}
    → Connected links x y
    → Connected links y z
    → Connected links x z
Connected-trans p here = p
Connected-trans p (forth q m) = forth (Connected-trans p q) m
Connected-trans p (back q m) = back (Connected-trans p q) m

Connected-sym : {links : Links} {x y : String} → Connected links x y → Connected links y x
Connected-sym here = here
Connected-sym (forth p m) = Connected-trans (back here m) (Connected-sym p)
Connected-sym (back p m) = Connected-trans (forth here m) (Connected-sym p)

Among-snoc :
    (a b : String) (links : Links) (link : String × String)
    → Among a b (links ++ link ∷ []) ↔ (Among a b links ⊎ (link.0 ≡ a) × (link.1 ≡ b))
Among-snoc a b [] link = ground arith
Among-snoc a b (l ∷ links) link = ground (arith, Among-snoc a b links link)

Connected-snoc :
    {links : Links} {x y : String} (link : String × String)
    → Connected links x y
    → Connected (links ++ link ∷ []) x y
Connected-snoc link here = here
Connected-snoc {links} link (forth {y} {z} p m) =
    forth (Connected-snoc link p) ((Among-snoc y z links link).1 (inl m))
Connected-snoc {links} link (back {y} {z} p m) =
    back (Connected-snoc link p) ((Among-snoc z y links link).1 (inl m))

-- The roots stand for the components of the links so far.
pub record Represents (links : Links) (root : String → String) : Type 0 where
  pub sound : (z : String) → Connected links z (root z)
  pub complete : (a b : String) → Among a b links → root a ≡ root b

pub Represents-iff :
    {links : Links} {root : String → String} (x y : String)
    → Represents links root
    → (root x ≡ root y) ↔ Connected links x y
Represents-iff {links} {root} x y h = (
  λ e. Connected-trans (subst (Connected links x) e (h.sound x)) (Connected-sym (h.sound y)),
  same_root,
)
  where
    same_root : {w : String} → Connected links x w → root x ≡ root w
    same_root here = refl
    same_root (forth {y} {z} p m) = same_root p ∙ h.complete y z m
    same_root (back {y} {z} p m) = same_root p ∙ sym (h.complete z y m)

Unites-Represents :
    {nodes : List String} {links : Links} {root : String → String} {top : ℕ} {left right : String}
    {out : Option Forest}
    → Represents links root
    → (u : Unites nodes root top left right out) → Represents (links ++ (left, right) ∷ []) u.root'
Unites-Represents {links} {root} {left} {right} h u = record {
  sound = λ z. elim (u.changes z) [
    | inl e ↦ subst (Connected all z) (sym e) (Connected-snoc link (h.sound z))
    | inr (inl (e, f)) ↦ subst (Connected all z) (sym f) (
        Connected-trans (to z left e)
          (Connected-trans joined (Connected-snoc link (h.sound right))))
    | inr (inr (e, f)) ↦ subst (Connected all z) (sym f) (
        Connected-trans (to z right e)
          (Connected-trans (Connected-sym joined) (Connected-snoc link (h.sound left))))
  ];
  complete = λ a b m. elim ((Among-snoc a b links link).0 m) [
    | inl old ↦ u.keeps a b (h.complete a b old)
    | inr (e, f) ↦ ap u.root' (sym e) ∙ u.unites ∙ ap u.root' f
  ];
}
  where
    link : String × String
    link = (left, right)

    all : Links
    all = links ++ link ∷ []

    joined : Connected all left right
    joined = forth here ((Among-snoc left right links link).1 (inr (refl, refl)))

    to : (z w : String) → root z ≡ root w → Connected all z w
    to z w e =
        Connected-trans (subst (Connected all z) e (Connected-snoc link (h.sound z)))
          (Connected-sym (Connected-snoc link (h.sound w)))

module _ (doubles : Doubles) (nodes : List String) (threshold : doubles.Double) where
  -- A forest whose roots stand for the components of the links, with ranks below the fuel.
  pub record Ends (links : Links) (fuel : ℕ) (out : Option Forest) : Type 0 where
    pub forest' : Forest
    pub returns : out ≡ some forest'
    pub root : String → String
    pub top : ℕ
    pub implements : Implements nodes forest'.parent forest'.rank root top
    pub represents : Represents links root
    pub below : top < fuel

  link_of-IsNode :
      (edge : Edge doubles) (left right : String)
      → link_of doubles nodes threshold edge ≡ some (left, right)
      → IsNode nodes left × IsNode nodes right
  unfolding link_of
  link_of-IsNode edge left right e = ground arith

  links_of-none : links_of doubles nodes threshold [] ≡ []
  unfolding links_of
  links_of-none = refl

  links_of-skip :
      (edge : Edge doubles) (edges : List (Edge doubles))
      → link_of doubles nodes threshold edge ≡ none
      → links_of doubles nodes threshold (edge ∷ edges) ≡ links_of doubles nodes threshold edges
  unfolding links_of
  links_of-skip edge edges e = rw (e, links_of) refl

  links_of-join :
      (edge : Edge doubles) (edges : List (Edge doubles)) (link : String × String)
      → link_of doubles nodes threshold edge ≡ some link
      → links_of doubles nodes threshold (edge ∷ edges)
        ≡ link ∷ links_of doubles nodes threshold edges
  unfolding links_of
  links_of-join edge edges link e = rw (e, links_of) refl

  join_edges-skip :
      (edge : Edge doubles) (edges : List (Edge doubles)) (fuel : ℕ) (forest : Forest)
      → link_of doubles nodes threshold edge ≡ none
      → join_edges doubles nodes threshold fuel forest (edge ∷ edges)
        ≡ join_edges doubles nodes threshold fuel forest edges
  unfolding join_edges
  join_edges-skip edge edges fuel forest e = rw (e, join_edges) refl

  join_edges-join :
      (edge : Edge doubles) (edges : List (Edge doubles)) (fuel : ℕ) (forest next : Forest)
      (left right : String)
      → link_of doubles nodes threshold edge ≡ some (left, right)
      → union fuel forest left right ≡ some next
      → join_edges doubles nodes threshold fuel forest (edge ∷ edges)
        ≡ join_edges doubles nodes threshold fuel next edges
  unfolding join_edges
  join_edges-join edge edges fuel forest next left right e u = rw (e, join_edges, u) refl

  pub join_edges-Ends :
      (edges : List (Edge doubles)) (fuel : ℕ) (forest : Forest) (root : String → String) (top : ℕ)
      (links : Links)
      → Implements nodes forest.parent forest.rank root top
      → Represents links root
      → top + length edges < fuel
      → Ends
          (links ++ links_of doubles nodes threshold edges)
          fuel
          (join_edges doubles nodes threshold fuel forest edges)
  join_edges-Ends [] fuel forest root top links i h f = record {
    forest' = forest;
    returns = unfold join_edges in refl;
    root = root;
    top = top;
    implements = i;
    represents =
        subst (λ l. Represents l root)
          (sym (append-nil links) ∙ ap (λ l. links ++ l) (sym links_of-none)) h;
    below = omega arith;
  }
  join_edges-Ends (edge ∷ edges) fuel forest root top links i h f =
      elim (Option-cases (link_of doubles nodes threshold edge)) [
        | inl e ↦
            rw (links_of-skip edge edges e, join_edges-skip edge edges fuel forest e)
              (join_edges-Ends edges fuel forest root top links i h (omega arith))
        | inr ((left, right), e) ↦
            let inside = link_of-IsNode edge left right e in
            let u =
              union-Unites nodes fuel forest root top left right i inside.0 inside.1
                (omega arith) in
            rw
              (
                links_of-join edge edges (left, right) e,
                join_edges-join edge edges fuel forest u.forest' left right e u.returns,
                ← append_assoc links ((left, right) ∷ []) (links_of doubles nodes threshold edges),
              )
              (join_edges-Ends edges fuel u.forest' u.root' (suc top) (links ++ (left, right) ∷ [])
                u.implements (Unites-Represents h u) (omega arith))
      ]
