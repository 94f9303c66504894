-- ===== src/Net/Arp.antt =====
-- The table of hardware addresses of src/netstack.c as a map from addresses.
use mathlib.Core.Option
use mathlib.Core.Path.{subst}
use lite_bsd.Prelude.{
  ℕ, zero, suc, ◌<◌, ◌≡◌, ◌≢◌, refl, sym, ap, ◌∙◌, inl, inr, ◌⊎◌, Bool, true, false, not, ◌&&◌,
  Option, none, some, List, [], ◌∷◌, ◌==◌, if◌then◌else◌, Bool-cases, Option-cases, arith, get_or,
  set, length, length-set,
}
use lite_bsd.Net.State.{ArpEntry, find_index}
use lite_bsd.Net.Send.{
  arp_hit, no_entry, fill_entry, renew_entry, arp_add_entry, mac_of, arp_lookup,
}

-- What a search that ends at a place says of the element there.
pub find_index-hit {ℓ} :
    {A : Type ℓ} (p : A → Bool) (d : A) (xs : List A) (i : ℕ)
    → find_index p xs ≡ some i
    → (i < length xs) × (p (get_or xs i d) ≡ true)
unfolding find_index
find_index-hit p d [] i e = cc
find_index-hit p d (x ∷ xs) i e = elim (Bool-cases (p x)) [
  | inl hit ↦
      let at : 0 ≡ i = some_inj (rw hit at e) in
      subst (λ i. (i < length (x ∷ xs)) × (p (get_or (x ∷ xs) i d) ≡ true)) at (omega arith, hit)
  | inr miss ↦ elim (Option-cases (find_index p xs)) [
    | inl nowhere ↦ absurd (none-some (sym (ap (Option.map suc) nowhere) ∙ (rw miss at e)))
    | inr (j, there) ↦
        let at : suc j ≡ i = some_inj (sym (ap (Option.map suc) there) ∙ (rw miss at e)) in
        let ih = find_index-hit p d xs j there in
        subst (λ i. (i < length (x ∷ xs)) × (p (get_or (x ∷ xs) i d) ≡ true)) at
          (omega (arith, ih.0), ih.1)
  ]
]
  where
    some_inj : {a b : ℕ} → Option.some a ≡ some b → a ≡ b
    some_inj h = cc

    none-some : {a : ℕ} → Option.none ≡ some a → ⊥
    none-some h = cc

-- None of the first `i` elements passes the test.
abbrev pub Misses {ℓ} : {A : Type ℓ} → (A → Bool) → ℕ → List A → Type 0
Misses p zero xs = Unit
Misses p (suc i) [] = Unit
Misses p (suc i) (x ∷ xs) = (p x ≡ false) × Misses p i xs

pub find_index-Misses {ℓ} :
    {A : Type ℓ} (p : A → Bool) (xs : List A) (i : ℕ)
    → (find_index p xs ≡ none) ⊎ (find_index p xs ≡ some i)
    → Misses p i xs
unfolding find_index
find_index-Misses p [] zero e = tt
find_index-Misses p [] (suc i) e = tt
find_index-Misses p (x ∷ xs) zero e = tt
find_index-Misses p (x ∷ xs) (suc i) e = elim (Bool-cases (p x)) [
  | inl hit ↦ absurd (elim e [ inl n ↦ some_none (rw hit at n) | inr s ↦ zero_suc (rw hit at s) ])
  | inr miss ↦ (
    miss,
    find_index-Misses p xs i (elim e [
      | inl n ↦ inl (map_none (find_index p xs) (rw miss at n))
      | inr s ↦ inr (map_some (find_index p xs) i (rw miss at s))
    ]),
  )
]
  where
    inside : {a b : ℕ} → Option.some a ≡ some b → a ≡ b
    inside h = cc

    apart : {a : ℕ} → 0 ≡ suc a → ⊥
    apart h = absurd (omega arith)

    some_none : {a : ℕ} → Option.some a ≡ none → ⊥
    some_none h = cc

    zero_suc : {a : ℕ} → Option.some 0 ≡ some (suc a) → ⊥
    zero_suc h = apart (inside h)

    map_none : (o : Option ℕ) → Option.map suc o ≡ none → o ≡ none
    map_none none h = refl
    map_none (some a) h = cc

    map_some : (o : Option ℕ) (i : ℕ) → Option.map suc o ≡ some (suc i) → o ≡ some i
    map_some none i h = cc
    map_some (some a) i h = let k : suc a ≡ suc i = inside h in ap some (omega (arith, k))

arp_lookup_step :
    (ip : ℕ) (e : ArpEntry) (es : List ArpEntry)
    → arp_lookup ip (e ∷ es) ≡ (if arp_hit ip e then some e.mac else arp_lookup ip es)
unfolding arp_lookup find_index
arp_lookup_step ip e es = elim (Bool-cases (arp_hit ip e)) [
  | inl hit ↦ rw hit refl
  | inr miss ↦ rw miss (behind (find_index (arp_hit ip) es))
]
  where
    behind : (o : Option ℕ) → mac_of (e ∷ es) (Option.map suc o) ≡ mac_of es o
    behind none = refl
    behind (some i) = refl

-- An entry that serves no other address is put behind entries that do not serve this one.
set_lookup :
    (ip other i : ℕ) (v : ArpEntry) (es : List ArpEntry)
    → i < length es
    → Misses (arp_hit ip) i es
    → arp_hit ip v ≡ true
    → ((other == ip) ≡ false → arp_hit other (get_or es i no_entry) ≡ false)
    → ((other == ip) ≡ false → arp_hit other v ≡ false)
    → arp_lookup other (set es i v) ≡ (if other == ip then some v.mac else arp_lookup other es)
set_lookup ip other i v [] h m hit old new = absurd (omega arith)
set_lookup ip other zero v (e ∷ es) h m hit old new =
    arp_lookup_step other v es ∙ elim (Bool-cases (other == ip)) [
      | inl same ↦
          let at : ip ≡ other = ground arith in
          rw same (rw (subst (λ a. arp_hit a v ≡ true) at hit) refl)
      | inr apart ↦
          rw apart (rw (new apart) (sym (arp_lookup_step other e es ∙ rw (old apart) refl)))
    ]
set_lookup ip other (suc i) v (e ∷ es) h m hit old new =
    let ih = set_lookup ip other i v es (omega arith) m.1 hit old new in
    arp_lookup_step other e (set es i v) ∙ elim (Bool-cases (other == ip)) [
      | inl same ↦
          let at : ip ≡ other = ground arith in
          rw (subst (λ a. arp_hit a e ≡ false) at m.0) (ih ∙ rw same refl)
      | inr apart ↦ elim (Bool-cases (arp_hit other e)) [
        | inl here ↦ rw here (rw apart (sym (arp_lookup_step other e es ∙ rw here refl)))
        | inr there ↦ rw there (ih ∙ rw apart (sym (arp_lookup_step other e es ∙ rw there refl)))
      ]
    ]

-- What the table says of each address after the answer `mac` for `ip`: all are kept where there is
-- neither an entry for it nor a free one.
pub Learns : ℕ → List ℕ → List ArpEntry → List ArpEntry → Type 0
Learns ip mac table table' =
    (length table' ≡ length table)
    × ((find_index (arp_hit ip) table ≡ none)
        → (find_index (λ e. not e.valid) table ≡ none)
        → table' ≡ table)
    × ((find_index (arp_hit ip) table ≢ none) ⊎ (find_index (λ e. not e.valid) table ≢ none)
        → (other : ℕ)
        → arp_lookup other table' ≡ (if other == ip then some mac else arp_lookup other table))

hit-lem : (ip : ℕ) (e : ArpEntry) → arp_hit ip e ≡ true → (e.valid ≡ true) × (e.ip ≡ ip)
hit-lem ip e h = elim (Bool-cases e.valid) [
  | inl v ↦ (v, let k : (e.ip == ip) ≡ true = rw v at h in ground arith)
  | inr v ↦ absurd (false_true (rw v at h))
]
  where
    false_true : Bool.false ≡ true → ⊥
    false_true k = cc

-- An entry for `ip` serves no other address.
hit_other :
    (ip other : ℕ) (e : ArpEntry) → e.ip ≡ ip → (other == ip) ≡ false → arp_hit other e ≡ false
hit_other ip other e h k = ground arith

none-some : {a : ℕ} → Option.none ≡ some a → ⊥
none-some h = cc

filled-Learns :
    (ip : ℕ) (mac : List ℕ) (table : List ArpEntry) (o : Option ℕ)
    → find_index (arp_hit ip) table ≡ none
    → find_index (λ e. not e.valid) table ≡ o
    → Learns ip mac table (fill_entry ip mac o table)
unfolding Learns fill_entry
filled-Learns ip mac table none miss e =
    (refl, λ h k. refl, λ k. absurd (elim k [ inl h ↦ h miss | inr h ↦ h e ]))
filled-Learns ip mac table (some i) miss e =
    let at = find_index-hit (λ e. not e.valid) no_entry table i e in
    let new : ArpEntry = record { ip = ip; mac = mac; valid = true } in
    (
      length-set table i new,
      λ h k. absurd (none-some (sym k ∙ e)),
      λ k other.
          set_lookup ip other i new table at.0 (find_index-Misses (arp_hit ip) table i (inl miss))
            (self ip) (λ h. stale other (get_or table i no_entry) at.1)
            (hit_other ip other new refl),
    )
  where
    self : (ip : ℕ) → (true && (ip == ip)) ≡ true
    self ip = ground arith

    stale : (other : ℕ) (e : ArpEntry) → not e.valid ≡ true → arp_hit other e ≡ false
    stale other e h = elim (Bool-cases e.valid) [
      | inl v ↦ absurd (true_false (rw v at h))
      | inr v ↦ rw v refl
    ]
      where
        true_false : Bool.false ≡ true → ⊥
        true_false k = cc

renewed-Learns :
    (ip : ℕ) (mac : List ℕ) (table : List ArpEntry) (o : Option ℕ)
    → find_index (arp_hit ip) table ≡ o
    → Learns ip mac table (renew_entry ip mac o table)
unfolding Learns renew_entry
renewed-Learns ip mac table (some i) e =
    let at = find_index-hit (arp_hit ip) no_entry table i e in
    let old = get_or table i no_entry in
    let h = hit-lem ip old at.1 in
    (
      length-set table i (record old { mac = mac }),
      λ k. absurd (none-some (sym k ∙ e)),
      λ k other.
          set_lookup ip other i (record old { mac = mac }) table at.0
            (find_index-Misses (arp_hit ip) table i (inr e)) at.1 (hit_other ip other old h.1)
            (hit_other ip other old h.1),
    )
renewed-Learns ip mac table none e =
    filled-Learns ip mac table (find_index (λ e. not e.valid) table) e refl

-- `arp_add_entry` makes the table answer the address with the new hardware address and every other
-- address as before, and keeps its length; only where no entry is for the address and none is free
-- it leaves the table as it was.
pub arp_add_entry-Learns :
    (ip : ℕ) (mac : List ℕ) (table : List ArpEntry)
    → Learns ip mac table (arp_add_entry ip mac table)
unfolding arp_add_entry
arp_add_entry-Learns ip mac table = renewed-Learns ip mac table (find_index (arp_hit ip) table) refl
