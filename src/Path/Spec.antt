-- ===== src/Path/Spec.antt =====
-- An absolute path as the names that lead to it, the last one first, and the text of it.
use mathlib.Core.List.{reverse}
use lite_bsd.Prelude.{ℕ, ◌≡◌, ◌≤◌, false, List, [], ◌∷◌, ◌++◌, ◌==◌, if◌then◌else◌, length}
use lite_bsd.Path.{slash, is_dot, is_dotdot}

abbrev pub Stack : Type 0
Stack = List (List ℕ)

-- A list of bytes with no slash.
abbrev pub NoSlash : List ℕ → Type 0
NoSlash [] = Unit
NoSlash (c ∷ cs) = ((c == slash) ≡ false) × NoSlash cs

-- A name that can stand in a stack: not empty, no slash, and neither `.` nor `..`.
abbrev pub IsName : List ℕ → Type 0
IsName n = NoSlash n × ((0 == length n) ≡ false) × (is_dot n ≡ false) × (is_dotdot n ≡ false)

abbrev pub AllNames : Stack → Type 0
AllNames [] = Unit
AllNames (n ∷ ns) = IsName n × AllNames ns

-- `/a/b`, last byte first, for the stack of `b` over `a`; nothing for the root.
abbrev pub tower : Stack → List ℕ
tower [] = []
tower (n ∷ ns) = reverse n ++ (slash ∷ tower ns)

abbrev pub stacked : Stack → List ℕ
stacked [] = slash ∷ []
stacked (n ∷ ns) = tower (n ∷ ns)

-- The text of a stack: `/` for the root, and else each name behind a slash.
abbrev pub text : Stack → List ℕ
text ns = reverse (stacked ns)

-- The names that a path spells between its slashes; `acc` is the name being read.
abbrev pub flush : List ℕ → Stack → Stack
flush [] ns = ns
flush (c ∷ cs) ns = (c ∷ cs) ∷ ns

unfoldable pub names_from : List ℕ → List ℕ → Stack
names_from acc [] = flush acc []
names_from acc (c ∷ cs) =
    let here = flush acc (names_from [] cs) in
    let longer = names_from (acc ++ (c ∷ [])) cs in if c == slash then here else longer

unfoldable pub names : List ℕ → Stack
unfolding names_from
names path = names_from [] path

abbrev pub leave : Stack → Stack
leave [] = []
leave (n ∷ ns) = ns

-- `.` stays, `..` leaves the last name (at the root it stays), any other name is entered.
unfoldable pub enter : Stack → List ℕ → Stack
enter ns n = if is_dot n then ns else if is_dotdot n then leave ns else n ∷ ns

unfoldable pub enter_all : Stack → Stack → Stack
unfolding enter
enter_all ns [] = ns
enter_all ns (n ∷ rest) = enter_all (enter ns n) rest

-- No name is longer than `k` bytes.
abbrev pub Short : ℕ → Stack → Type 0
Short k [] = Unit
Short k (n ∷ ns) = (length n ≤ k) × Short k ns
