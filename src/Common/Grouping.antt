-- ===== src/Common/Grouping.antt =====
-- Grouping by a text, the way the code does it twice: a map from a key to its group, and the keys in
-- the order in which they are first seen.
use mathlib.Core.Path.{fun_ext}
use technician.Common.{
  ◌≡◌, refl, sym, ap, ◌∙◌, inl, inr, Bool, true, false, ◌||◌, List, [], ◌∷◌, ◌++◌, map,
  append_assoc, append-nil, arith, if◌then◌else◌, Bool-cases, select, any, ◌==◌, nat_eq, Str,
  str_beq_iff, str_eq,
}
use technician.Common.Maps.{Map, insert, has_key, lookup_or, lookup-insert, lookup_or-insert}

pub record Groups {ℓ} (A : Type ℓ) : Type ℓ where
  pub order : List Str
  pub members : Map Str (List A)

abbrev pub mem_key : Str → List Str → Bool
mem_key k ks = any (λ j. j == k) ks

-- The keys, each where it is first seen, without those in `seen`.
abbrev pub firsts : List Str → List Str → List Str
firsts seen [] = []
firsts seen (k ∷ ks) =
    let old = firsts seen ks in
    let new = k ∷ firsts (seen ++ k ∷ []) ks in if mem_key k seen then old else new

mem_key-snoc : (k j : Str) (ks : List Str) → mem_key k (ks ++ j ∷ []) ≡ (mem_key k ks || j == k)
mem_key-snoc k j [] = ground arith
mem_key-snoc k j (i ∷ ks) = ground (arith, mem_key-snoc k j ks)

module _ {ℓ} {A : Type ℓ} where
  abbrev pub no_groups : Groups A
  no_groups = record { order = []; members = [] }

  unfoldable pub add_member : Str → A → Groups A → Groups A
  add_member k a g =
      if has_key k g.members
      then record g { members = insert k (lookup_or k [] g.members ++ a ∷ []) g.members }
      else record { order = g.order ++ k ∷ []; members = insert k (a ∷ []) g.members }

  -- the loop over the elements
  unfoldable pub group_all : (A → Str) → List A → Groups A → Groups A
  unfolding add_member
  group_all key [] g = g
  group_all key (a ∷ as') g = group_all key as' (add_member (key a) a g)

  -- the groups in the order of their keys
  abbrev pub listed {κ} : {B : Type κ} → (Str → List A → B) → Groups A → List B
  listed make g = map (λ k. make k (lookup_or k [] g.members)) g.order

  -- The keys of the map are those in the order.
  abbrev IsGrouped : Groups A → Type 0
  IsGrouped g = (k : Str) → has_key k g.members ≡ mem_key k g.order

  has_key-insert :
      (k j : Str) (v : List A) (m : Map Str (List A))
      → has_key j (insert k v m) ≡ (k == j || has_key j m)
  unfolding has_key
  has_key-insert k j v m = ground (arith, lookup-insert k j v m)

  add_member-IsGrouped :
      (k : Str) (a : A) (g : Groups A) → IsGrouped g → IsGrouped (add_member k a g)
  unfolding add_member
  add_member-IsGrouped k a g v j = elim (Bool-cases (has_key k g.members)) [
    | inl old ↦ rw old (has_key-insert k j _ g.members ∙ known k j g v old)
    | inr new ↦ rw new (
        has_key-insert k j (a ∷ []) g.members
        ∙ rw (v j) (swap (k == j) (mem_key j g.order))
        ∙ sym (mem_key-snoc j k g.order))
  ]
    where
      swap : (a b : Bool) → (a || b) ≡ (b || a)
      swap a b = ground arith

      known :
          (k j : Str) (g : Groups A)
          → IsGrouped g
          → has_key k g.members ≡ true
          → (k == j || has_key j g.members) ≡ mem_key j g.order
      known k j g v old = ground (arith, v j, v k, str_beq_iff k j)

  add_member-order :
      (k : Str) (a : A) (g : Groups A)
      → IsGrouped g
      → (add_member k a g).order ≡ (if mem_key k g.order then g.order else g.order ++ k ∷ [])
  unfolding add_member
  add_member-order k a g v = rw (← v k) (ground arith)

  lookup_or-missing : (k : Str) (m : Map Str (List A)) → has_key k m ≡ false → lookup_or k [] m ≡ []
  unfolding has_key lookup_or
  lookup_or-missing k m h = ground arith

  add_member-members :
      (k j : Str) (a : A) (g : Groups A)
      → lookup_or j [] (add_member k a g).members
        ≡ (lookup_or j [] g.members ++ (if k == j then a ∷ [] else []))
  unfolding add_member
  add_member-members k j a g = ground (
    arith,
    str_beq_iff k j,
    lookup_or-missing k g.members,
    lookup_or-insert k j [] (a ∷ []) g.members,
    lookup_or-insert k j [] (lookup_or k [] g.members ++ a ∷ []) g.members,
    append-nil (lookup_or j [] g.members),
  )

  group_all-order :
      (key : A → Str) (xs : List A) (g : Groups A)
      → IsGrouped g
      → (group_all key xs g).order ≡ g.order ++ firsts g.order (map key xs)
  unfolding group_all
  group_all-order key [] g v = sym (append-nil g.order)
  group_all-order key (x ∷ xs) g v =
      let rest =
        group_all-order key xs (add_member (key x) x g) (add_member-IsGrouped (key x) x g v) in
      elim (Bool-cases (mem_key (key x) g.order)) [
        | inl old ↦
            let same : (add_member (key x) x g).order ≡ g.order =
              add_member-order (key x) x g v ∙ rw old in
            rw old (rest ∙ rw same)
        | inr new ↦
            let more : (add_member (key x) x g).order ≡ g.order ++ key x ∷ [] =
              add_member-order (key x) x g v ∙ rw new in
            rw new (
              rest
              ∙ rw more
                  (append_assoc g.order (key x ∷ []) (firsts (g.order ++ key x ∷ []) (map key xs))))
      ]

  group_all-members :
      (key : A → Str) (k : Str) (xs : List A) (g : Groups A)
      → lookup_or k [] (group_all key xs g).members
        ≡ lookup_or k [] g.members ++ select (λ x. key x == k) xs
  unfolding group_all
  group_all-members key k [] g = sym (append-nil (lookup_or k [] g.members))
  group_all-members key k (x ∷ xs) g = ground (
    arith,
    group_all-members key k xs (add_member (key x) x g),
    add_member-members (key x) k x g,
    append-nil (lookup_or k [] g.members),
    append_assoc (lookup_or k [] g.members) (x ∷ []) (select (λ x. key x == k) xs),
  )

  -- The groups are those of the keys, each where it is first seen, with the elements of the key in order.
  pub listed-group_all {κ} :
      {B : Type κ} (make : Str → List A → B) (key : A → Str) (xs : List A)
      → listed make (group_all key xs no_groups)
        ≡ map (λ k. make k (select (λ x. key x == k) xs)) (firsts [] (map key xs))
  unfolding has_key lookup_or
  listed-group_all make key xs =
      let g = group_all key xs no_groups in
      ap (λ f. map f g.order) (fun_ext (λ k. ap (make k) (group_all-members key k xs no_groups)))
      ∙ ap (map (λ k. make k (select (λ x. key x == k) xs)))
          (group_all-order key xs no_groups (λ k. refl))
