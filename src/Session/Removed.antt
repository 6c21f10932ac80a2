-- ===== src/Session/Removed.antt =====
-- What `_remove_tree` of src/pricewatch/session/store.py does to a tree.
use pricewatch.Base.{
  subst, ◌≡◌, refl, ◌≤◌, Bool, true, false, not, ◌||◌, none, some, List, [], ◌∷◌, text_eq_iff,
  text_eq_refl, map, filter, any, length, if◌then◌else◌, arith, All, Bool-cases, inl, inr, ap, ◌∙◌,
}
use pricewatch.Base.Sort.{All-sort, sort, sort-IsSorted, IsSorted, insert}
use pricewatch.Session.Tree.{
  FilePath, Node, Tree, dir, is_prefix, is_below, path_eq, kind_of, is_real_dir, remove, rmdir,
  remove_each, deeper, children, remove_tree,
}

is_prefix_trans :
    (p q r : FilePath) → is_prefix p q ≡ true → is_prefix q r ≡ true → is_prefix p r ≡ true
unfolding is_prefix
is_prefix_trans [] q r h k = refl
is_prefix_trans (x ∷ p) [] r h k = absurd (cc h)
is_prefix_trans (x ∷ p) (y ∷ q) [] h k = absurd (cc k)
is_prefix_trans (x ∷ p) (y ∷ q) (z ∷ r) h k =
    ground (arith, is_prefix_trans p q r, text_eq_iff x y, text_eq_iff y z, text_eq_iff x z)

is_prefix-length : (p q : FilePath) → is_prefix p q ≡ true → length p ≤ length q
unfolding is_prefix
is_prefix-length [] q h = omega arith
is_prefix-length (x ∷ p) [] h = absurd (cc h)
is_prefix-length (x ∷ p) (y ∷ q) h = ground (arith, is_prefix-length p q)

-- A path is one of a list.
abbrev among : FilePath → List FilePath → Bool
among q [] = false
among q (p ∷ ps) = path_eq p q || among q ps

-- Every path inside the root that the tree has is still to be removed.
abbrev Awaits : FilePath → List FilePath → Tree → Type 0
Awaits root ps tree = All (λ (n : Node). is_below root n.path ≡ true → among n.path ps ≡ true) tree

shallower :
    (p q : FilePath) (ps : List FilePath)
    → All (λ r. deeper p r ≡ true) ps
    → among q ps ≡ true
    → length q ≤ length p
shallower p q [] h k = absurd (cc k)
shallower p q (r ∷ ps) h k = ground (arith, shallower p q ps h.1)

none_below :
    (root p : FilePath) (ps : List FilePath) (tree : Tree)
    → is_below root p ≡ true
    → All (λ r. deeper p r ≡ true) ps
    → Awaits root (p ∷ ps) tree
    → any (λ n. is_below p n.path) tree ≡ false
none_below root p ps [] b h w = refl
none_below root p ps (n ∷ tree) b h w = ground (
  arith,
  none_below root p ps tree b h w.1,
  w.0,
  is_prefix_trans root p n.path,
  shallower p n.path ps h,
)

remove-Awaits :
    (root p : FilePath) (ps : List FilePath) (tree : Tree)
    → Awaits root (p ∷ ps) tree
    → Awaits root ps (remove p tree)
remove-Awaits root p ps [] w = tt
remove-Awaits root p ps (n ∷ tree) w = elim (Bool-cases (path_eq p n.path)) [
  | inl e ↦ rw e (remove-Awaits root p ps tree w.1)
  | inr e ↦ rw e (λ h. ground (arith, w.0 h), remove-Awaits root p ps tree w.1)
]

step_removes :
    (p : FilePath) (tree : Tree)
    → any (λ n. is_below p n.path) tree ≡ false
    → (if is_real_dir (kind_of p tree) then rmdir p tree else some (remove p tree))
      ≡ some (remove p tree)
unfolding rmdir
step_removes p tree h = elim (Bool-cases (is_real_dir (kind_of p tree))) [
  | inl e ↦ rw (e, h) refl
  | inr e ↦ rw e refl
]

without-cons :
    (p : FilePath) (ps : List FilePath) (tree : Tree)
    → filter (λ n. not (among n.path ps)) (remove p tree)
      ≡ filter (λ n. not (among n.path (p ∷ ps))) tree
without-cons p ps [] = refl
without-cons p ps (n ∷ tree) = ground (arith, without-cons p ps tree)

remove_each-removes :
    (root : FilePath) (ps : List FilePath) (tree : Tree)
    → IsSorted deeper ps
    → All (λ p. is_below root p ≡ true) ps
    → Awaits root ps tree
    → remove_each ps tree ≡ some (filter (λ n. not (among n.path ps)) tree)
unfolding remove_each
remove_each-removes root [] tree s b w = ap some (keep_all tree)
  where
    keep_all : (tree : Tree) → tree ≡ filter (λ n. not (among n.path [])) tree
    keep_all [] = refl
    keep_all (n ∷ tree) = ap (λ ns. n ∷ ns) (keep_all tree)
remove_each-removes root (p ∷ ps) tree s b w =
    ap (λ o. elim o [ none ↦ none | some tree' ↦ remove_each ps tree' ])
      (step_removes p tree (none_below root p ps tree b.0 s.0 w))
    ∙ remove_each-removes root ps (remove p tree) s.1 b.1 (remove-Awaits root p ps tree w)
    ∙ ap some (without-cons p ps tree)

among-insert :
    (q p : FilePath) (ps : List FilePath)
    → among q (insert deeper p ps) ≡ (path_eq p q || among q ps)
unfolding insert
among-insert q p [] = refl
among-insert q p (r ∷ ps) = ground (arith, among-insert q p ps)

among-sort : (q : FilePath) (ps : List FilePath) → among q (sort deeper ps) ≡ among q ps
unfolding sort
among-sort q [] = refl
among-sort q (p ∷ ps) =
    among-insert q p (sort deeper ps) ∙ ap (λ b. path_eq p q || b) (among-sort q ps)

is_prefix_refl : (p : FilePath) → is_prefix p p ≡ true
unfolding is_prefix
is_prefix_refl [] = refl
is_prefix_refl (x ∷ p) = ground (arith, is_prefix_refl p, text_eq_refl x)

-- The paths of a tree below a root.
abbrev below : FilePath → Tree → List FilePath
below root tree = map (λ n. n.path) (filter (λ n. is_below root n.path) tree)

below-All : (root : FilePath) (tree : Tree) → All (λ p. is_below root p ≡ true) (below root tree)
below-All root [] = tt
below-All root (n ∷ tree) = elim (Bool-cases (is_below root n.path)) [
  | inl e ↦ rw e (e, below-All root tree)
  | inr e ↦ rw e (below-All root tree)
]

among_later :
    (root : FilePath) (n : Node) (tree : Tree) (q : FilePath)
    → among q (below root tree) ≡ true
    → among q (below root (n ∷ tree)) ≡ true
among_later root n tree q h = ground arith

below-Awaits_in :
    (root : FilePath) (ps : List FilePath) (tree : Tree)
    → ((q : FilePath) → among q (below root tree) ≡ true → among q ps ≡ true)
    → Awaits root ps tree
below-Awaits_in root ps [] f = tt
below-Awaits_in root ps (n ∷ tree) f = (
  λ h. f n.path (ground (arith, is_prefix_refl n.path)),
  below-Awaits_in root ps tree (λ q h. f q (among_later root n tree q h)),
)

path_eq→≡ : (p q : FilePath) → path_eq p q ≡ true → p ≡ q
unfolding is_prefix
path_eq→≡ [] [] h = refl
path_eq→≡ [] (y ∷ q) h = ground arith
path_eq→≡ (x ∷ p) [] h = absurd (cc h)
path_eq→≡ (x ∷ p) (y ∷ q) h = ground (arith, path_eq→≡ p q, text_eq_iff x y)

among-below :
    (root q : FilePath) (ps : List FilePath)
    → All (λ p. is_below root p ≡ true) ps
    → among q ps ≡ true
    → is_below root q ≡ true
among-below root q [] b h = absurd (cc h)
among-below root q (p ∷ ps) b h = elim (Bool-cases (path_eq p q)) [
  | inl e ↦ subst (λ r. is_below root r ≡ true) (path_eq→≡ p q e) b.0
  | inr e ↦ among-below root q ps b.1 (ground arith)
]

kept_outside :
    (root : FilePath) (ps : List FilePath) (tree : Tree)
    → All (λ p. is_below root p ≡ true) ps
    → Awaits root ps tree
    → filter (λ n. not (among n.path ps)) tree ≡ filter (λ n. not (is_below root n.path)) tree
kept_outside root ps [] b w = refl
kept_outside root ps (n ∷ tree) b w =
    ground (arith, kept_outside root ps tree b w.1, w.0, among-below root n.path ps b)

-- The tree without what lies inside the root.
abbrev outside : FilePath → Tree → Tree
outside root = filter (λ n. not (is_below root n.path))

kind_of-outside :
    (root : FilePath) (tree : Tree) → kind_of root (outside root tree) ≡ kind_of root tree
unfolding kind_of
kind_of-outside root [] = refl
kind_of-outside root (n ∷ tree) = ground (arith, kind_of-outside root tree)

none_inside :
    (root : FilePath) (tree : Tree) → any (λ n. is_below root n.path) (outside root tree) ≡ false
none_inside root [] = refl
none_inside root (n ∷ tree) = ground (arith, none_inside root tree)

remove-outside :
    (root : FilePath) (tree : Tree)
    → remove root (outside root tree) ≡ filter (λ n. not (is_prefix root n.path)) tree
remove-outside root [] = refl
remove-outside root (n ∷ tree) =
    ground (arith, remove-outside root tree, is_prefix-length root n.path)

children-removed :
    (root : FilePath) (tree : Tree)
    → remove_each (children root tree) tree ≡ some (outside root tree)
unfolding children
children-removed root tree =
    let ps = below root tree in
    let inside = All-sort deeper (λ p. is_below root p ≡ true) ps (below-All root tree) in
    let waits = below-Awaits_in root (sort deeper ps) tree (λ q h. among-sort q ps ∙ h) in
    remove_each-removes root (sort deeper ps) tree
      (sort-IsSorted deeper (λ p q h. ground arith) (λ p q r h k. ground arith) ps) inside waits
    ∙ ap some (kept_outside root (sort deeper ps) tree inside waits)

-- Removing a directory never raises, however its files, links and directories are nested: it
-- removes exactly the directory and what lies inside it.
pub remove_tree-removes :
    (root : FilePath) (tree : Tree)
    → kind_of root tree ≡ some dir
    → remove_tree root tree ≡ some (filter (λ n. not (is_prefix root n.path)) tree)
unfolding remove_tree rmdir
remove_tree-removes root tree h =
    ap (λ o. elim o [ none ↦ none | some tree' ↦ rmdir root tree' ]) (children-removed root tree)
    ∙ rw (kind_of-outside root tree, h, none_inside root tree) (ap some (remove-outside root tree))
