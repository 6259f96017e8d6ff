-- ===== src/Scheduler/Links/Maps.antt =====
-- Sequences of fibers and the sequences of their nodes.
use dd_framework.Base.{
  ℕ, ◌≡◌, ◌≢◌, refl, sym, ap, ◌⊎◌, inl, inr, List, [], ◌∷◌, ◌++◌, map, ℕ_discrete,
}
use dd_framework.IntrusiveList.Chain.{NotIn}
use dd_framework.IntrusiveList.Ring.{AllOut}
use dd_framework.Scheduler.State.{Queue, Ref, root, scheduler_list_node, wait_list_node}

-- `node` takes different fibers to different nodes.
module _ (node : ℕ → Ref) (inj : (f g : ℕ) → node f ≡ node g → f ≡ g) where
  pub NotIn-map : (f : ℕ) (xs : List ℕ) → NotIn f xs → NotIn (node f) (map node xs)
  NotIn-map f [] n = tt
  NotIn-map f (x ∷ xs) n = ((λ e. n.0 (inj f x e)), NotIn-map f xs n.1)

  pub AllOut-map : (xs ys : List ℕ) → AllOut xs ys → AllOut (map node xs) (map node ys)
  AllOut-map [] ys o = tt
  AllOut-map (x ∷ xs) ys o = (NotIn-map x ys o.0, AllOut-map xs ys o.1)

-- A reference that is never a node of this kind.
module _ (node : ℕ → Ref) where
  pub NotIn-map_other : (r : Ref) → ((f : ℕ) → r ≢ node f) → (xs : List ℕ) → NotIn r (map node xs)
  NotIn-map_other r ne [] = tt
  NotIn-map_other r ne (x ∷ xs) = (ne x, NotIn-map_other r ne xs)

  pub AllOut-map_other :
      (zs : List Ref) → ((f : ℕ) → NotIn (node f) zs) → (xs : List ℕ) → AllOut (map node xs) zs
  AllOut-map_other zs out [] = tt
  AllOut-map_other zs out (x ∷ xs) = (out x, AllOut-map_other zs out xs)

  pub map-append_one : (xs : List ℕ) (f : ℕ) → map node (xs ++ f ∷ []) ≡ map node xs ++ node f ∷ []
  map-append_one [] f = refl
  map-append_one (x ∷ xs) f = ap (λ ys. node x ∷ ys) (map-append_one xs f)

  pub map-append_at : (xs ys : List ℕ) → map node (xs ++ ys) ≡ map node xs ++ map node ys
  map-append_at [] ys = refl
  map-append_at (x ∷ xs) ys = ap (λ zs. node x ∷ zs) (map-append_at xs ys)

pub scheduler_node_inj : (f g : ℕ) → scheduler_list_node f ≡ scheduler_list_node g → f ≡ g
scheduler_node_inj f g e = cc

pub wait_node_inj : (f g : ℕ) → wait_list_node f ≡ wait_list_node g → f ≡ g
wait_node_inj f g e = cc

pub root_inj : (p q : Queue) → root p ≡ root q → p ≡ q
root_inj p q e = cc

module _ {A : Type 0} where
  pub AllOut-snoc : (x : A) (zs xs : List A) → AllOut zs xs → NotIn x zs → AllOut zs (xs ++ x ∷ [])
  AllOut-snoc x [] xs o n = tt
  AllOut-snoc x (z ∷ zs) xs o n = (snoc xs o.0, AllOut-snoc x zs xs o.1 n.1)
    where
      snoc : (ys : List A) → NotIn z ys → NotIn z (ys ++ x ∷ [])
      snoc [] h = ((λ e. n.0 (sym e)), tt)
      snoc (y ∷ ys) h = (h.0, snoc ys h.1)

  pub snoc-AllOut : (x : A) (zs xs : List A) → AllOut xs zs → NotIn x zs → AllOut (xs ++ x ∷ []) zs
  snoc-AllOut x zs [] o n = (n, tt)
  snoc-AllOut x zs (y ∷ ys) o n = (o.0, snoc-AllOut x zs ys o.1 n)

  pub NotIn-of_snoc : (c x : A) (xs : List A) → NotIn c (xs ++ x ∷ []) → (c ≢ x) × NotIn c xs
  NotIn-of_snoc c x [] n = (n.0, tt)
  NotIn-of_snoc c x (y ∷ ys) n = let (a, b) = NotIn-of_snoc c x ys n.1 in (a, (n.0, b))

  pub AllOut-shrink : (x : A) (ys zs xs : List A) → AllOut (xs ++ x ∷ ys) zs → AllOut (xs ++ ys) zs
  AllOut-shrink x ys zs [] o = o.1
  AllOut-shrink x ys zs (w ∷ ws) o = (o.0, AllOut-shrink x ys zs ws o.1)

  pub AllOut-shrink_right :
      (x : A) (ys xs zs : List A) → AllOut zs (xs ++ x ∷ ys) → AllOut zs (xs ++ ys)
  AllOut-shrink_right x ys xs [] o = tt
  AllOut-shrink_right x ys xs (z ∷ zs) o = (shrink xs o.0, AllOut-shrink_right x ys xs zs o.1)
    where
      shrink : (ws : List A) → NotIn z (ws ++ x ∷ ys) → NotIn z (ws ++ ys)
      shrink [] n = n.1
      shrink (w ∷ ws) n = (n.0, shrink ws n.1)

pub NotIn-grow : (c x : ℕ) (ys xs : List ℕ) → c ≢ x → NotIn c (xs ++ ys) → NotIn c (xs ++ x ∷ ys)
NotIn-grow c x ys [] ne n = (ne, n)
NotIn-grow c x ys (w ∷ ws) ne n = (n.0, NotIn-grow c x ys ws ne n.1)

-- Whether a fiber is in a list, and where.
pub split_at :
    (f : ℕ) (xs : List ℕ) → NotIn f xs ⊎ ((ys : List ℕ) × (zs : List ℕ) × (xs ≡ ys ++ f ∷ zs))
split_at f [] = inl tt
split_at f (x ∷ xs) = elim (ℕ_discrete f x) [
  | yes e ↦ inr ([], xs, ap (λ y. y ∷ xs) (sym e))
  | no n ↦ elim (split_at f xs) [
    | inl out ↦ inl (n, out)
    | inr (ys, zs, e) ↦ inr (x ∷ ys, zs, ap (λ ws. x ∷ ws) e)
  ]
]
