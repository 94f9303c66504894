-- ===== src/Vfs/Nodes.antt =====
-- The list of nodes of src/vfs.c as a map from paths, and how a change of one node and a new node
-- show in it.
use mathlib.Core.Option
use lite_bsd.Prelude.{
  ℕ, ◌≡◌, refl, sym, ap, ◌∙◌, inl, inr, ◌↔◌, true, false, Option, none, some, List, [], ◌∷◌,
  if◌then◌else◌, Bool-cases, arith, codes, bytes_eq,
}
use lite_bsd.Path.{starts_slash}
use lite_bsd.Vfs.Node.{Node, Mode, content}
use lite_bsd.Vfs.Lookup.{Vfs, find_in, find_node}
use lite_bsd.Vfs.Ops.{update_in, update, remove_in}

pub bytes_eq_iff : (a b : List ℕ) → (bytes_eq a b ≡ true) ↔ (a ≡ b)
bytes_eq_iff [] [] = ((λ h. refl), λ h. refl)
bytes_eq_iff [] (d ∷ ds) = ((λ h. cc), λ h. cc)
bytes_eq_iff (c ∷ cs) [] = ((λ h. cc), λ h. cc)
bytes_eq_iff (c ∷ cs) (d ∷ ds) =
    let rest = bytes_eq_iff cs ds in (λ h. ground (arith, rest.0), λ h. ground (arith, rest.1))

pub bytes_eq_refl : (a : List ℕ) → bytes_eq a a ≡ true
bytes_eq_refl a = (bytes_eq_iff a a).1 refl

pub bytes_eq_comm : (a b : List ℕ) → bytes_eq a b ≡ bytes_eq b a
bytes_eq_comm [] [] = refl
bytes_eq_comm [] (d ∷ ds) = refl
bytes_eq_comm (c ∷ cs) [] = refl
bytes_eq_comm (c ∷ cs) (d ∷ ds) = ground (arith, bytes_eq_comm cs ds)

some-none : {m : Node} → Option.some m ≡ none → ⊥
some-none h = cc

-- What a path shows of its node: the mode and the bytes.
abbrev pub entry : Node → Mode × List ℕ
entry n = (n.mode, content n)

abbrev pub look_in : List ℕ → List Node → Option (Mode × List ℕ)
look_in path ns = Option.map entry (find_in path ns)

abbrev pub look : Vfs → List ℕ → Option (Mode × List ℕ)
look fs path = Option.map entry (find_node fs path)

-- A change that leaves path, mode and bytes.
pub record Quiet (f : Node → Node) : Type 0 where
  pub path : (n : Node) → (f n).path ≡ n.path
  pub entry_same : (n : Node) → entry (f n) ≡ entry n

pub look_in-update_in :
    (p q : List ℕ) (f : Node → Node) (ns : List Node)
    → Quiet f
    → look_in q (update_in p f ns) ≡ look_in q ns
unfolding find_in update_in
look_in-update_in p q f [] k = refl
look_in-update_in p q f (n ∷ ns) k = elim (Bool-cases (bytes_eq n.path p)) [
  | inl here ↦ rw here (
      rw (k.path n) (elim (Bool-cases (bytes_eq n.path q)) [
        | inl hit ↦ rw hit (ap some (k.entry_same n))
        | inr miss ↦ rw miss refl
      ]))
  | inr there ↦ rw there (elim (Bool-cases (bytes_eq n.path q)) [
    | inl hit ↦ rw hit refl
    | inr miss ↦ rw miss (look_in-update_in p q f ns k)
  ])
]

pub find_in-update_in-none :
    (p q : List ℕ) (f : Node → Node) (ns : List Node)
    → ((n : Node) → (f n).path ≡ n.path)
    → find_in q ns ≡ none
    → find_in q (update_in p f ns) ≡ none
unfolding find_in update_in
find_in-update_in-none p q f [] k e = refl
find_in-update_in-none p q f (n ∷ ns) k e = elim (Bool-cases (bytes_eq n.path q)) [
  | inl hit ↦ absurd (some-none (rw hit at e))
  | inr miss ↦ elim (Bool-cases (bytes_eq n.path p)) [
    | inl here ↦ rw here (rw (k n) (rw miss (rw miss at e)))
    | inr there ↦ rw there (rw miss (find_in-update_in-none p q f ns k (rw miss at e)))
  ]
]

-- The paths are absolute and each stands once.
abbrev pub Distinct : List Node → Type 0
Distinct [] = Unit
Distinct (n ∷ ns) = (find_in n.path ns ≡ none) × (starts_slash n.path ≡ true) × Distinct ns

pub Distinct-update_in :
    (p : List ℕ) (f : Node → Node) (ns : List Node)
    → ((n : Node) → (f n).path ≡ n.path)
    → Distinct ns
    → Distinct (update_in p f ns)
unfolding update_in
Distinct-update_in p f [] k d = tt
Distinct-update_in p f (n ∷ ns) k d = elim (Bool-cases (bytes_eq n.path p)) [
  | inl here ↦ rw here (rw (k n) (d.0, d.1, d.2))
  | inr there ↦
      rw there (find_in-update_in-none p n.path f ns k d.0, d.1, Distinct-update_in p f ns k d.2)
]

-- Without its node a path leads nowhere, and the other paths lead where they did.
pub look_in-remove_in :
    (p q : List ℕ) (ns : List Node)
    → Distinct ns
    → look_in q (remove_in p ns) ≡ (if bytes_eq p q then none else look_in q ns)
unfolding find_in remove_in
look_in-remove_in p q [] d = elim (Bool-cases (bytes_eq p q)) [
  | inl same ↦ rw same refl
  | inr other ↦ rw other refl
]
look_in-remove_in p q (n ∷ ns) d = elim (Bool-cases (bytes_eq n.path p)) [
  | inl here ↦
      let at : n.path ≡ p = (bytes_eq_iff n.path p).0 here in
      rw here (elim (Bool-cases (bytes_eq p q)) [
        | inl same ↦
            let same_path : n.path ≡ q = at ∙ (bytes_eq_iff p q).0 same in
            rw same (ap (Option.map entry) (rw same_path at d.0))
        | inr other ↦
            let apart : bytes_eq n.path q ≡ false = ap (λ l. bytes_eq l q) at ∙ other in
            rw other (rw apart refl)
      ])
  | inr there ↦ rw there (elim (Bool-cases (bytes_eq n.path q)) [
    | inl hit ↦
        let apart : bytes_eq p q ≡ false =
          ap (bytes_eq p) (sym ((bytes_eq_iff n.path q).0 hit)) ∙ bytes_eq_comm p n.path ∙ there in
        rw hit (rw apart refl)
    | inr miss ↦ rw miss (look_in-remove_in p q ns d.2)
  ])
]

pub find_in-remove_in-none :
    (p q : List ℕ) (ns : List Node) → find_in q ns ≡ none → find_in q (remove_in p ns) ≡ none
unfolding find_in remove_in
find_in-remove_in-none p q [] e = refl
find_in-remove_in-none p q (n ∷ ns) e = elim (Bool-cases (bytes_eq n.path q)) [
  | inl hit ↦ absurd (some-none (rw hit at e))
  | inr miss ↦ elim (Bool-cases (bytes_eq n.path p)) [
    | inl here ↦ rw here (rw miss at e)
    | inr there ↦ rw there (rw miss (find_in-remove_in-none p q ns (rw miss at e)))
  ]
]

pub Distinct-remove_in : (p : List ℕ) (ns : List Node) → Distinct ns → Distinct (remove_in p ns)
unfolding remove_in
Distinct-remove_in p [] d = tt
Distinct-remove_in p (n ∷ ns) d = elim (Bool-cases (bytes_eq n.path p)) [
  | inl here ↦ rw here d.2
  | inr there ↦ rw there (find_in-remove_in-none p n.path ns d.0, d.1, Distinct-remove_in p ns d.2)
]

-- The tree of a mounted file system: every path once, all absolute, and the root apart from them.
pub record IsTree (fs : Vfs) : Type 0 where
  pub distinct : Distinct fs.nodes
  pub no_root : find_in (codes "/") fs.nodes ≡ none

pub look-update :
    (p q : List ℕ) (f : Node → Node) (fs : Vfs) → Quiet f → look (update p f fs) q ≡ look fs q
unfolding update find_node
look-update p q f fs k = elim (Bool-cases (bytes_eq p (codes "/"))) [
  | inl root ↦ rw root (elim (Bool-cases (bytes_eq q (codes "/"))) [
    | inl top ↦ rw top (ap some (k.entry_same fs.root))
    | inr below ↦ rw below refl
  ])
  | inr below ↦ rw below (elim (Bool-cases (bytes_eq q (codes "/"))) [
    | inl top ↦ rw top refl
    | inr under ↦ rw under (look_in-update_in p q f fs.nodes k)
  ])
]

pub update-IsTree :
    (p : List ℕ) (f : Node → Node) (fs : Vfs)
    → ((n : Node) → (f n).path ≡ n.path)
    → IsTree fs
    → IsTree (update p f fs)
unfolding update
update-IsTree p f fs k t = elim (Bool-cases (bytes_eq p (codes "/"))) [
  | inl root ↦ rw root (record { distinct = t.distinct; no_root = t.no_root })
  | inr below ↦ rw below (record {
    distinct = Distinct-update_in p f fs.nodes k t.distinct;
    no_root = find_in-update_in-none p (codes "/") f fs.nodes k t.no_root;
  })
]
