-- ===== src/Vfs/Follow.antt =====
-- Where `follow_symlinks` of src/vfs.c ends.
use lite_bsd.Prelude.{
  ℕ, zero, suc, ◌≡◌, inl, inr, false, Option, none, some, List, Bool-cases, Option-cases,
}
use mathlib.Core.Path.{subst}
use lite_bsd.Vfs.Node.{Node, is_symlink_node}
use lite_bsd.Vfs.Lookup.{Vfs, find_node, until_nul, link_target, follow}

-- A path that leads nowhere or to a node that is no symlink.
abbrev pub NoLink : Option Node → Type 0
NoLink none = Unit
NoLink (some n) = is_symlink_node n ≡ false

some_inj : {p q : List ℕ} → Option.some p ≡ some q → p ≡ q
some_inj h = cc

none-some : {q : List ℕ} → Option.none ≡ some q → ⊥
none-some h = cc

-- Where `follow_symlinks`, with eight rounds or any other number of them, does not return -1, the
-- path that it leaves leads nowhere or to a node that is no symlink.
pub follow-NoLink :
    (depth : ℕ) (fs : Vfs) (path q : List ℕ)
    → follow depth fs path ≡ some q
    → NoLink (find_node fs q)
unfolding follow
follow-NoLink zero fs path q h = absurd (none-some h)
follow-NoLink (suc depth) fs path q h = elim (Option-cases (find_node fs path)) [
  | inl absent ↦
      subst (λ p. NoLink (find_node fs p)) (some_inj (rw (absent, follow) at h)) (rw absent tt)
  | inr (n, found) ↦ elim (Bool-cases (is_symlink_node n)) [
    | inl link ↦ elim (Option-cases (link_target path (until_nul 255 n.contents))) [
      | inl nowhere ↦ absurd (none-some (rw nowhere at (rw link at (rw (found, follow) at h))))
      | inr (next, on) ↦
          follow-NoLink depth fs next q (rw on at (rw link at (rw (found, follow) at h)))
    ]
    | inr plain ↦
        subst (λ p. NoLink (find_node fs p)) (some_inj (rw plain at (rw (found, follow) at h)))
          (rw found plain)
  ]
]
