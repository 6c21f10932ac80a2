-- ===== src/Session/Tree.antt =====
-- The directory tree below the state directory, and `_remove_tree` of
-- src/pricewatch/session/store.py. A path is the list of its names; a link is not followed.
use pricewatch.Base.{
  Bool, true, false, not, ◌&&◌, Option, none, some, List, [], ◌∷◌, Text, text_eq, map, filter, any,
  length, ltb, leb, ◌==◌, if◌then◌else◌,
}
use pricewatch.Base.Sort.{sort}

abbrev pub FilePath : Type 0
FilePath = List Text

pub data Kind : Type 0 where
  regular symlink dir : Kind
  -- a link that leads nowhere
  dangling : Kind

pub record Node : Type 0 where
  pub path : FilePath
  pub kind : Kind

abbrev pub Tree : Type 0
Tree = List Node

unfoldable pub is_prefix : FilePath → FilePath → Bool
is_prefix [] q = true
is_prefix (x ∷ p) [] = false
is_prefix (x ∷ p) (y ∷ q) = text_eq x y && is_prefix p q

-- `q` lies inside the directory `p`.
abbrev pub is_below : FilePath → FilePath → Bool
is_below p q = is_prefix p q && ltb (length p) (length q)

abbrev pub path_eq : FilePath → FilePath → Bool
path_eq p q = is_prefix p q && (length p == length q)

unfoldable pub kind_of : FilePath → Tree → Option Kind
unfolding is_prefix
kind_of p [] = none
kind_of p (n ∷ ns) = if path_eq p n.path then some n.kind else kind_of p ns

-- `exists`, which follows a link.
abbrev pub leads : Option Kind → Bool
leads none = false
leads (some dangling) = false
leads (some k) = true

-- `child.is_dir() and not child.is_symlink()`
abbrev pub is_real_dir : Option Kind → Bool
is_real_dir (some dir) = true
is_real_dir k = false

abbrev pub remove : FilePath → Tree → Tree
remove p = filter (λ n. not (path_eq p n.path))

-- `rmdir`; it raises where the path is no directory, or is one that is not empty.
unfoldable pub rmdir : FilePath → Tree → Option Tree
unfolding kind_of is_prefix
rmdir p tree =
    if is_real_dir (kind_of p tree) && not (any (λ n. is_below p n.path) tree)
    then some (remove p tree)
    else none

-- The loop of `_remove_tree`; the last branch is `unlink(missing_ok=True)`.
unfoldable pub remove_each : List FilePath → Tree → Option Tree
unfolding kind_of rmdir
remove_each [] tree = some tree
remove_each (p ∷ ps) tree =
    elim (if is_real_dir (kind_of p tree) then rmdir p tree else some (remove p tree)) [
      | none ↦ none
      | some tree' ↦ remove_each ps tree'
    ]

-- The order of the loop: deeper paths first.
abbrev pub deeper : FilePath → FilePath → Bool
deeper p q = leb (length q) (length p)

-- What `rglob("*")` yields, sorted.
unfoldable pub children : FilePath → Tree → List FilePath
unfolding sort is_prefix
children root tree = sort deeper (map (λ n. n.path) (filter (λ n. is_below root n.path) tree))

-- `_remove_tree`
unfoldable pub remove_tree : FilePath → Tree → Option Tree
unfolding children remove_each rmdir
remove_tree root tree = elim (remove_each (children root tree) tree) [
  | none ↦ none
  | some tree' ↦ rmdir root tree'
]
