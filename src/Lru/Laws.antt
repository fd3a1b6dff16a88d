-- ===== src/Lru/Laws.antt =====
-- What the cache promises: distinct keys, at most `MaxEntries` of them, and an eviction order by use.
use im_service.Prelude.{
  suc, ◌≤◌, ◌<◌, ◌≡◌, ◌≢◌, refl, sym, ap, subst, ◌∙◌, append-nil, ◌-◌, ◌⊎◌, inl, inr, not, ◌&&◌,
  List, [], ◌∷◌, ◌++◌, Option, none, some, length, arith, ltb, ◌==◌, if◌then◌else◌, Option-cases,
  Bool-cases, length-append,
}
use im_service.Lru.{Cache, find, unlink, back, remove_oldest, add, get}
use mathlib.Core.Logic.{ite, if_pos, if_neg}

module _ {ℓ} {K V : Type ℓ} (dec : Discrete K) where
  -- No key stands twice in the list.
  abbrev pub Distinct : List (K × V) → Type ℓ
  Distinct [] = Unit {ℓ}
  Distinct ((k, v) ∷ l) = (find dec k l ≡ none) × Distinct l

  find-unlink_ne : (k j : K) (l : List (K × V)) → j ≢ k → find dec j (unlink dec k l) ≡ find dec j l
  unfolding find unlink
  find-unlink_ne k j [] h = refl
  find-unlink_ne k j ((i, v) ∷ l) h = ground (arith, find-unlink_ne k j l)

  find-unlink_self : (k : K) (l : List (K × V)) → Distinct l → find dec k (unlink dec k l) ≡ none
  unfolding find unlink
  find-unlink_self k [] d = refl
  find-unlink_self k ((i, v) ∷ l) d = ground (arith, find-unlink_self k l)

  find-unlink-none :
      (k j : K) (l : List (K × V)) → find dec j l ≡ none → find dec j (unlink dec k l) ≡ none
  unfolding find unlink
  find-unlink-none k j [] h = refl
  find-unlink-none k j ((i, v) ∷ l) h = ground (arith, find-unlink-none k j l)

  Distinct-unlink : (k : K) (l : List (K × V)) → Distinct l → Distinct (unlink dec k l)
  unfolding unlink
  Distinct-unlink k [] d = d
  Distinct-unlink k ((i, v) ∷ l) (d, ds) = elim (dec i k) [
    | yes e ↦ rw (if_pos _ e) ds
    | no n ↦ rw (if_neg _ n) (find-unlink-none k i l d, Distinct-unlink k l ds)
  ]

  length-unlink :
      (k : K) (l : List (K × V)) (v : V)
      → find dec k l ≡ some v
      → suc (length (unlink dec k l)) ≡ length l
  unfolding find unlink
  length-unlink k [] v h = cc
  length-unlink k ((i, w) ∷ l) v h = ground (arith, length-unlink k l v)

  unlink_absent : (k : K) (l : List (K × V)) → find dec k l ≡ none → unlink dec k l ≡ l
  unfolding find unlink
  unlink_absent k [] h = refl
  unlink_absent k ((i, w) ∷ l) h = ground (arith, unlink_absent k l)

  find-back : (k : K) (v : V) (l : List (K × V)) → back l ≡ some (k, v) → find dec k l ≢ none
  unfolding find back
  find-back k v [] h = cc
  find-back k v ((i, w) ∷ []) h = ground arith
  find-back k v ((i, w) ∷ e ∷ l) h = ground (arith, find-back k v (e ∷ l) h)

  -- The back of the list is its last element.
  unlink-back :
      (k : K) (v : V) (l : List (K × V))
      → Distinct l
      → back l ≡ some (k, v)
      → unlink dec k l ++ (k, v) ∷ [] ≡ l
  unfolding unlink back
  unlink-back k v [] d h = cc
  unlink-back k v ((i, w) ∷ []) d h = ground arith
  unlink-back k v ((i, w) ∷ e ∷ l) (d, ds) h = elim (dec i k) [
    | yes same ↦ absurd (find-back k v (e ∷ l) h (subst (λ x. find dec x (e ∷ l) ≡ none) same d))
    | no other ↦ rw (if_neg _ other) (ap (◌∷◌ (i, w)) (unlink-back k v (e ∷ l) ds h))
  ]

  back_none : (l : List (K × V)) → back l ≡ none → l ≡ []
  unfolding back
  back_none [] h = refl
  back_none (e ∷ []) h = cc
  back_none (e ∷ e' ∷ l) h = absurd (cc (back_none (e' ∷ l) h))

  -- The keys are distinct, and there are at most `MaxEntries`, if that is not 0.
  pub record IsValid (c : Cache K V) : Type ℓ where
    pub distinct : Distinct c.entries
    pub bounded : (c.max_entries ≡ 0) ⊎ (length c.entries ≤ c.max_entries)

  -- `RemoveOldest` gives up the last entry, and nothing else.
  remove_oldest_lem :
      (c : Cache K V)
      → Distinct c.entries
      → ((remove_oldest dec c).0.entries ++ (remove_oldest dec c).1 ≡ c.entries)
        × ((remove_oldest dec c).0.max_entries ≡ c.max_entries)
        × (length (remove_oldest dec c).0.entries ≡ length c.entries - 1)
        × Distinct (remove_oldest dec c).0.entries
  unfolding remove_oldest
  remove_oldest_lem c d = elim (Option-cases (back c.entries)) [
    | inl e ↦
        rw (e, remove_oldest)
          (append-nil c.entries, refl, rw (back_none c.entries e) (omega arith), d)
    | inr ((k, v), e) ↦
        let whole = unlink-back k v c.entries d e in
        rw (e, remove_oldest)
          (
            whole,
            refl,
            omega (arith, ap length whole, length-append (unlink dec k c.entries) ((k, v) ∷ [])),
            Distinct-unlink k c.entries d,
          )
  ]

  add_hit :
      (k : K) (v old : V) (c : Cache K V)
      → find dec k c.entries ≡ some old
      → add dec k v c ≡ (record c { entries = (k, v) ∷ unlink dec k c.entries }, [])
  unfolding add
  add_hit k v old c e = rw (e, add)

  add_miss :
      (k : K) (v : V) (c : Cache K V)
      → find dec k c.entries ≡ none
      → let c' : Cache K V = record c { entries = (k, v) ∷ c.entries } in
        add dec k v c ≡ (
          if not (c.max_entries == 0) && ltb c.max_entries (length c'.entries)
          then remove_oldest dec c'
          else (c', []))
  unfolding add
  add_miss k v c e = rw (e, add)

  -- The result of `Add`: the entries and what is evicted make up the list with the entry in front,
  -- something is evicted only if the cache then stands at its limit, and the cache is valid.
  abbrev pub Added : K → V → Cache K V → Cache K V × List (K × V) → Type ℓ
  Added k v c r =
      (r.0.entries ++ r.1 ≡ (k, v) ∷ unlink dec k c.entries)
      × (r.0.max_entries ≡ c.max_entries)
      × ((r.1 ≡ []) ⊎ (length r.0.entries ≡ c.max_entries))
      × IsValid r.0

  evicts :
      (k : K) (v : V) (c : Cache K V)
      → IsValid c
      → find dec k c.entries ≡ none
      → c.max_entries ≢ 0
      → c.max_entries < suc (length c.entries)
      → Added k v c (remove_oldest dec (record c { entries = (k, v) ∷ c.entries }))
  evicts k v c h e nz full =
      let c' : Cache K V = record c { entries = (k, v) ∷ c.entries } in
      let (whole, same, shorter, distinct) = remove_oldest_lem c' (e, h.distinct) in
      (
        whole ∙ ap (◌∷◌ (k, v)) (sym (unlink_absent k c.entries e)),
        same,
        inr (ground (arith, h.bounded)),
        record { distinct = distinct; bounded = inr (ground (arith, h.bounded)) },
      )

  -- In a valid cache `Add` puts the entry in front, where it replaces the old one of its key; what
  -- it evicts is the end of the list, and it evicts only to stay within the limit; the cache stays
  -- valid.
  pub add_lem : (k : K) (v : V) (c : Cache K V) → IsValid c → Added k v c (add dec k v c)
  add_lem k v c h = elim (Option-cases (find dec k c.entries)) [
    | inr (old, e) ↦ rw (add_hit k v old c e) (
      append-nil ((k, v) ∷ unlink dec k c.entries),
      refl,
      inl refl,
      record {
        distinct =
            (find-unlink_self k c.entries h.distinct, Distinct-unlink k c.entries h.distinct);
        bounded = ground (arith, h.bounded, length-unlink k c.entries old e);
      },
    )
    | inl e ↦
        elim (Bool-cases (not (c.max_entries == 0) && ltb c.max_entries (suc (length c.entries)))) [
          | inl t ↦ rw (add_miss k v c e, t) (evicts k v c h e (ground arith) (ground arith))
          | inr t ↦
              rw (add_miss k v c e, t)
                (
                  append-nil ((k, v) ∷ c.entries)
                      ∙ ap (◌∷◌ (k, v)) (sym (unlink_absent k c.entries e)),
                  refl,
                  inl refl,
                  record { distinct = (e, h.distinct); bounded = ground (arith, h.bounded) },
                )
        ]
  ]

  -- The entries of the other keys, in order.
  unfoldable pub others : K → List (K × V) → List (K × V)
  others k [] = []
  others k ((j, v) ∷ l) = ite (dec j k) (others k l) ((j, v) ∷ others k l)

  others_absent : (k : K) (l : List (K × V)) → find dec k l ≡ none → others k l ≡ l
  unfolding find others
  others_absent k [] h = refl
  others_absent k ((i, w) ∷ l) h = ground (arith, others_absent k l)

  unlink-others : (k : K) (l : List (K × V)) → Distinct l → unlink dec k l ≡ others k l
  unfolding unlink others
  unlink-others k [] d = refl
  unlink-others k ((i, w) ∷ l) (d, ds) = elim (dec i k) [
    | yes e ↦
        rw (if_pos _ e, if_pos _ e) (sym (others_absent k l (subst (λ x. find dec x l ≡ none) e d)))
    | no n ↦ rw (if_neg _ n, if_neg _ n) (ap (◌∷◌ (i, w)) (unlink-others k l ds))
  ]

  -- The list after a use of the key with what was found: its entry, and then the others in order.
  unfoldable pub used : K → Option V → List (K × V) → List (K × V)
  used k none l = l
  used k (some v) l = (k, v) ∷ others k l

  -- In a valid cache `Get` finds what is cached under the key; if that is an entry, it becomes the
  -- first, with all other entries behind it in their order, and else the entries stay as they are;
  -- every look-up gives what it gave before, the number of entries is the same, and the cache stays
  -- valid.
  pub get_lem :
      (k j : K) (c : Cache K V)
      → IsValid c
      → ((get dec k c).1 ≡ find dec k c.entries)
        × ((get dec k c).0.entries ≡ used k (find dec k c.entries) c.entries)
        × (find dec j (get dec k c).0.entries ≡ find dec j c.entries)
        × (length (get dec k c).0.entries ≡ length c.entries)
        × IsValid (get dec k c).0
  unfolding get find used
  get_lem k j c h = elim (Option-cases (find dec k c.entries)) [
    | inl e ↦ rw (e, get) (refl, refl, refl, refl, h)
    | inr (v, e) ↦
        rw (e, get)
          (
            refl,
            ap (◌∷◌ (k, v)) (unlink-others k c.entries h.distinct),
            found v e,
            length-unlink k c.entries v e,
            record {
              distinct =
                  (find-unlink_self k c.entries h.distinct, Distinct-unlink k c.entries h.distinct);
              bounded = ground (arith, h.bounded, length-unlink k c.entries v e);
            },
          )
  ]
    where
      found :
          (v : V)
          → find dec k c.entries ≡ some v
          → ite (dec k j) (some v) (find dec j (unlink dec k c.entries)) ≡ find dec j c.entries
      found v e = ground (arith, find-unlink_ne k j c.entries)
