-- ===== src/HashTable/Push.antt =====
-- The loops of pushEdgeInc, pushCallInc and pushLabelEvent (Profile/Backend/ThreadSafe/Task.cpp):
-- an event is tried again in a table twice as large, as long as its bucket is full.
use cyclebite.Base.{
  ◌<◌, ℕ, zero, suc, ◌+◌, ◌≤◌, Bool, true, List, [], ◌∷◌, ◌++◌, Option, none, some, ◌>>=◌, length,
  count, filter, ◌≡◌, refl, arith, inl, inr, ap, ◌∙◌, sym, subst, count-append, length-filter,
}
use cyclebite.HashTable.{
  Element, Table, tuple_size, full_size, index, same_blocks, tuple_lookup, enter, elements,
  resolve_clash, array_lookup,
}
use cyclebite.HashTable.Bucket.{home, KeepsBlocks, index-same_blocks}
use cyclebite.HashTable.Placement.{IsTable, entered}
use cyclebite.HashTable.Placement.Enter.{Enters, enter-cases}
use cyclebite.HashTable.Resolve.{
  Fits, resolve_clash-IsTable, Fits-double, count-elements_full, tuple_lookup-elements_full,
}

-- `op` is a call of HashTable_increment or HashTable_increment_label. `none` is the exit of the
-- process, or more turns than the fuel.
unfoldable pub push : ℕ → (Table → Option Table) → Table → Option Table
push zero op t = none
push (suc f) op t = elim (op t) [
  | some t' ↦ some t'
  | none ↦ resolve_clash t (t.size + 1) >>= push f op
]

-- Lists that differ in the order of elements with different blocks.
abbrev pub Same : List Element → List Element → Type 0
Same es ds =
    ((q : Element) → tuple_lookup es q ≡ tuple_lookup ds q)
    × ((p : Element → Bool) → count p es ≡ count p ds)

pub Same-trans : (bs cs ds : List Element) → Same bs cs → Same cs ds → Same bs ds
Same-trans bs cs ds h k = (λ q. h.0 q ∙ k.0 q, λ p. h.1 p ∙ k.1 p)

one_more : (n : ℕ) → suc n ≡ n + 1
one_more n = omega arith

pub resolve_clash-Same :
    (t : Table) (es : List Element)
    → IsTable t es
    → t.size < 31
    → (t' : Table) × (resolve_clash t (t.size + 1) ≡ some t')
      × (t'.size ≡ t.size + 1)
      × ((ds : List Element) × IsTable t' ds × Same ds es)
resolve_clash-Same t es h l =
    let (t', r, h', s) =
      resolve_clash-IsTable t es h (t.size + 1) (omega (arith, l))
        (subst (λ n. Fits n es) (one_more t.size) (Fits-double t es h)) in
    (
      t',
      r,
      s,
      (
        elements (full_size t) t.array,
        h',
        (tuple_lookup-elements_full t es h, count-elements_full t es h),
      ),
    )

push_done :
    (f : ℕ) (op : Table → Option Table) (t t' : Table)
    → op t ≡ some t'
    → push (suc f) op t ≡ some t'
unfolding push
push_done f op t t' e = rw (e, push) refl

push_again :
    (f : ℕ) (op : Table → Option Table) (t t' : Table)
    → op t ≡ none
    → resolve_clash t (t.size + 1) ≡ some t'
    → push (suc f) op t ≡ push f op t'
unfolding push
push_again f op t t' e r = rw (e, push) (rw r refl)

module _ (f : Element → Element) (fresh b : Element) (keeps : KeepsBlocks f b)
    (same : same_blocks b fresh ≡ true) (m : ℕ) where
  abbrev pub Pushed : ℕ → Table → List Element → Type 0
  Pushed d t es =
      (t' : Table) × (push (suc d) (λ t. enter f fresh t b) t ≡ some t')
      × (t'.size ≤ m)
      × ((ds : List Element) × IsTable t' (entered f fresh b ds) × Same ds es)

  -- A full bucket at the size `m` has no room for an element that is new.
  full-Fits :
      (t : Table) (es : List Element)
      → IsTable t es
      → t.size ≡ m
      → length (array_lookup t b) ≡ tuple_size
      → Fits m (es ++ fresh ∷ [])
      → ⊥
  full-Fits t es h s full fits =
      let q : index m fresh ≡ index m b = index-same_blocks m b fresh same in
      let c : count (home m (index m b)) es ≡ tuple_size =
        sym (length-filter (home m (index m b)) es)
        ∙ ap (λ n. length (filter (home n (index n b)) es)) (sym s)
        ∙ ap length (sym (h.placed (index t.size b)))
        ∙ full in
      ground (arith, fits (index m b), count-append (home m (index m b)) es (fresh ∷ []), c, q)

  at_once :
      (d : ℕ) (t : Table) (es : List Element) (h : IsTable t es)
      → t.size ≤ m
      → Enters f fresh t b es h (entered f fresh b es)
      → Pushed d t es
  at_once d t es h s (t', e, h', s') = (
    t',
    push_done d (λ t. enter f fresh t b) t t' e,
    omega (arith, s, s'),
    (es, h', (λ q. refl, λ p. refl)),
  )

  Fits-Same :
      (es ds : List Element) → Same ds es → Fits m (es ++ fresh ∷ []) → Fits m (ds ++ fresh ∷ [])
  Fits-Same es ds like fits i = omega (
    arith,
    fits i,
    like.1 (home m i),
    count-append (home m i) es (fresh ∷ []),
    count-append (home m i) ds (fresh ∷ []),
  )

  pub push-IsTable :
      (d : ℕ) (t : Table) (es : List Element)
      → IsTable t es
      → t.size + d ≡ m
      → m ≤ 31
      → (tuple_lookup es b ≡ none → Fits m (es ++ fresh ∷ []))
      → Pushed d t es
  push-IsTable zero t es h s l fits = elim (enter-cases f fresh t b es h keeps same) [
    | inl e ↦ at_once zero t es h (omega (arith, s)) e
    | inr (e, new, full) ↦ absurd (full-Fits t es h (omega (arith, s)) full (fits new))
  ]
  push-IsTable (suc d) t es h s l fits = elim (enter-cases f fresh t b es h keeps same) [
    | inl e ↦ at_once (suc d) t es h (omega (arith, s)) e
    | inr (e, new, full) ↦
        let (t₁, r, s₁, (es₁, h₁, like)) = resolve_clash-Same t es h (omega (arith, s, l)) in
        let (t', p, s', (ds, h', like')) =
          push-IsTable d t₁ es₁ h₁ (omega (arith, s, s₁)) l
            (λ z. Fits-Same es es₁ like (fits new)) in
        (
          t',
          push_again (suc d) (λ t. enter f fresh t b) t t₁ e r ∙ p,
          s',
          (ds, h', Same-trans ds es₁ es like' like),
        )
  ]
