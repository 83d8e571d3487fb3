-- ===== src/Markov/Handlers/Places.antt =====
-- The places of the task bin that are still to be read: a place is used again only after 4096 more
-- events of its kind, so the events that fit in the queue are never written over.
use cyclebite.Base.{
  ℕ, suc, ◌+◌, ◌-◌, ◌%◌, ◌<◌, true, List, [], ◌∷◌, ◌++◌, map, if◌then◌else◌, length, ◌≡◌, ◌≢◌, refl,
  arith, count, count-le-length, ap,
}
use cyclebite.Markov.Task.{EventKind, edge, call, label, Place}
use cyclebite.Markov.Handlers.{
  Event, kind_of, same_kind, TaskBin, bin_size, read_event, place_of, get_ptr,
}

-- The places of a kind, from one of them to the last one of the list.
abbrev pub of_kind : EventKind → List Place → ℕ
of_kind k ps = count (λ p. same_kind k p.kind) ps

-- Each place was handed out as many events of its kind ago as there are such places from it on.
abbrev pub IsRecent : (EventKind → ℕ) → List Place → Type 0
IsRecent next [] = Unit
IsRecent next (p ∷ ps) =
    (p.slot ≡ (next p.kind + bin_size - of_kind p.kind (p ∷ ps)) % bin_size) × IsRecent next ps

same_kind_refl : (k : EventKind) → same_kind k k ≡ true
same_kind_refl edge = refl
same_kind_refl call = refl
same_kind_refl label = refl

same_kind-eq : (j k : EventKind) → same_kind j k ≡ true → j ≡ k
same_kind-eq edge edge h = refl
same_kind-eq call call h = refl
same_kind-eq label label h = refl
same_kind-eq edge call h = cc
same_kind-eq edge label h = cc
same_kind-eq call edge h = cc
same_kind-eq call label h = cc
same_kind-eq label edge h = cc
same_kind-eq label call h = cc

of_kind-append :
    (k : EventKind) (ps : List Place) (p : Place)
    → of_kind k (ps ++ p ∷ []) ≡ (if same_kind k p.kind then suc (of_kind k ps) else of_kind k ps)
of_kind-append k [] p = ground arith
of_kind-append k (x ∷ xs) p = ground (arith, of_kind-append k xs p)

module _ (bin : TaskBin) (e : Event) where
  pub IsRecent-get_ptr :
      (ps : List Place)
      → length ps < 4095
      → IsRecent bin.next ps
      → IsRecent (get_ptr bin e).next (ps ++ place_of bin (kind_of e) ∷ [])
  unfolding get_ptr
  IsRecent-get_ptr [] l h = (ground (arith, same_kind_refl (kind_of e)), tt)
  IsRecent-get_ptr (p ∷ ps) l h = (
    ground (
      arith,
      h.0,
      l,
      same_kind_refl p.kind,
      of_kind-append p.kind ps (place_of bin (kind_of e)),
      count-le-length (λ (x : Place). same_kind p.kind x.kind) ps,
    ),
    IsRecent-get_ptr ps (omega (arith, l)) h.1,
  )

  apart :
      (p : Place) (ps : List Place)
      → length (p ∷ ps) < 4095
      → p.slot ≡ (bin.next p.kind + bin_size - of_kind p.kind (p ∷ ps)) % bin_size
      → same_kind p.kind (kind_of e) ≡ true
      → p.slot ≢ bin.next (kind_of e) % bin_size
  apart p ps l h k =
      let q = ap bin.next (same_kind-eq p.kind (kind_of e) k) in
      ground (
        arith,
        h,
        l,
        q,
        same_kind_refl p.kind,
        count-le-length (λ (x : Place). same_kind p.kind x.kind) ps,
      )

  first_read :
      (p : Place) (ps : List Place)
      → length (p ∷ ps) < 4095
      → p.slot ≡ (bin.next p.kind + bin_size - of_kind p.kind (p ∷ ps)) % bin_size
      → read_event (get_ptr bin e) p ≡ read_event bin p
  unfolding get_ptr
  first_read p ps l h = ground (arith, apart p ps l h)

  pub read-get_ptr_old :
      (ps : List Place)
      → length ps < 4095
      → IsRecent bin.next ps
      → map (read_event (get_ptr bin e)) ps ≡ map (read_event bin) ps
  unfolding get_ptr
  read-get_ptr_old [] l h = refl
  read-get_ptr_old (p ∷ ps) l h =
      λ i. first_read p ps l h.0 i ∷ read-get_ptr_old ps (omega (arith, l)) h.1 i

  pub read-get_ptr_new : read_event (get_ptr bin e) (place_of bin (kind_of e)) ≡ e
  unfolding get_ptr
  read-get_ptr_new = ground (arith, same_kind_refl (kind_of e))

pub IsRecent-drop :
    (next : EventKind → ℕ) (ps qs : List Place) → IsRecent next (ps ++ qs) → IsRecent next qs
IsRecent-drop next [] qs h = h
IsRecent-drop next (p ∷ ps) qs h = IsRecent-drop next ps qs h.1
