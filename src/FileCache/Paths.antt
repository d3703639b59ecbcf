-- ===== src/FileCache/Paths.antt =====
-- Paths of filecache/cache.go: `sanitizePath`, `realpath`, and what they use of path.Clean and
-- filepath.Dir. A path is a list of bytes; an absolute clean path is its elements, deepest first.
use missinggo.Base.{
  ℕ, ◌≡◌, refl, ap, ◌∙◌, Bool, true, false, ◌&&◌, ◌||◌, not, List, [], ◌∷◌, ◌++◌, arith,
  if◌then◌else◌, ◌==◌,
}
use mathlib.Core.List.{reverse, append_assoc, append-nil, reverse-cons, reverse-reverse}
use missinggo.Base.Keys.{bytes_eq}

abbrev pub Bytes : Type 0
Bytes = List ℕ

abbrev pub FilePath : Type 0
FilePath = List Bytes

abbrev pub slash : ℕ
slash = b'/'

-- The elements between the slashes.
unfoldable pub split : Bytes → List Bytes
split [] = [] ∷ []
split (c ∷ cs) =
    let rest = split cs in
    if c == slash then [] ∷ rest else elim rest [ [] ↦ (c ∷ []) ∷ [] | s ∷ ss ↦ (c ∷ s) ∷ ss ]

unfoldable pub join : List Bytes → Bytes
join [] = []
join (s ∷ []) = s
join (s ∷ t ∷ ss) = s ++ slash ∷ join (t ∷ ss)

abbrev pub is_empty : Bytes → Bool
is_empty [] = true
is_empty (c ∷ cs) = false

abbrev pub is_dot : Bytes → Bool
is_dot s = bytes_eq s (b'.' ∷ [])

abbrev pub is_dot_dot : Bytes → Bool
is_dot_dot s = bytes_eq s (b'.' ∷ b'.' ∷ [])

-- filepath.Dir of a clean absolute path; the root is its own parent.
abbrev pub dir : FilePath → FilePath
dir [] = []
dir (s ∷ ss) = ss

-- One step of path.Clean on a rooted path.
abbrev pub push : FilePath → Bytes → FilePath
push done s = if is_empty s || is_dot s then done else if is_dot_dot s then dir done else s ∷ done

unfoldable pub clean_onto : FilePath → List Bytes → FilePath
clean_onto done [] = done
clean_onto done (s ∷ ss) = clean_onto (push done s) ss

-- path.Clean of a path that begins with a slash.
unfoldable pub clean : Bytes → Bytes
unfolding split join clean_onto
clean p = slash ∷ join (reverse (clean_onto [] (split p)))

abbrev pub strip_slash : Bytes → Bytes
strip_slash [] = []
strip_slash (c ∷ cs) = if c == slash then cs else c ∷ cs

unfoldable pub sanitize_path : Bytes → Bytes
unfolding clean
sanitize_path [] = []
sanitize_path (c ∷ cs) = strip_slash (clean (slash ∷ c ∷ cs))

-- filepath.Join of the root and a key.
unfoldable pub realpath : FilePath → Bytes → FilePath
unfolding split clean_onto
realpath root key = clean_onto root (split key)

-- An element that path.Clean keeps: it is not empty, "." or "..", and has no slash.
abbrev pub no_slash : Bytes → Bool
no_slash [] = true
no_slash (c ∷ cs) = not (c == slash) && no_slash cs

abbrev pub is_plain : Bytes → Bool
is_plain s = not (is_empty s) && not (is_dot s) && not (is_dot_dot s) && no_slash s

abbrev pub AllPlain : List Bytes → Type 0
AllPlain [] = Unit {0}
AllPlain (s ∷ ss) = (is_plain s ≡ true) × AllPlain ss

abbrev NoSlashes : List Bytes → Type 0
NoSlashes [] = Unit {0}
NoSlashes (s ∷ ss) = (no_slash s ≡ true) × NoSlashes ss

split-NoSlashes : (p : Bytes) → NoSlashes (split p)
unfolding split
split-NoSlashes [] = (refl, tt)
split-NoSlashes (c ∷ cs) = ground (arith, split-NoSlashes cs)

clean_onto-AllPlain :
    (done : FilePath) (ss : List Bytes)
    → AllPlain done
    → NoSlashes ss
    → AllPlain (clean_onto done ss)
unfolding clean_onto
clean_onto-AllPlain done [] a h = a
clean_onto-AllPlain done (s ∷ ss) a h =
    clean_onto-AllPlain (push done s) ss (push-AllPlain done a) h.1
  where
    push-AllPlain : (done : FilePath) → AllPlain done → AllPlain (push done s)
    push-AllPlain [] a = ground arith
    push-AllPlain (t ∷ done) a = ground arith

AllPlain-reverse : (ss ts : List Bytes) → AllPlain ss → AllPlain ts → AllPlain (reverse ss ++ ts)
AllPlain-reverse [] ts a b = b
AllPlain-reverse (s ∷ ss) ts a b =
    rw (reverse-cons s ss, append_assoc) (AllPlain-reverse ss (s ∷ ts) a.1 (a.0, b))

-- Cleaning plain elements stacks them up.
clean_onto_plain :
    (done : FilePath) (ss : List Bytes) → AllPlain ss → clean_onto done ss ≡ reverse ss ++ done
unfolding clean_onto
clean_onto_plain done [] a = refl
clean_onto_plain done (s ∷ ss) a =
    rw (push_plain done s a.0, reverse-cons s ss, append_assoc) (clean_onto_plain (s ∷ done) ss a.1)
  where
    push_plain : (done : FilePath) (s : Bytes) → is_plain s ≡ true → push done s ≡ s ∷ done
    push_plain done s h = ground arith

split-append : (s p : Bytes) → no_slash s ≡ true → split (s ++ slash ∷ p) ≡ s ∷ split p
unfolding split
split-append [] p h = refl
split-append (c ∷ s) p h = ground (arith, split-append s p)

split_plain : (s : Bytes) → no_slash s ≡ true → split s ≡ s ∷ []
unfolding split
split_plain [] h = refl
split_plain (c ∷ s) h = ground (arith, split_plain s)

-- Splitting undoes joining, but for the empty list.
split-join : (s : Bytes) (ss : List Bytes) → AllPlain (s ∷ ss) → split (join (s ∷ ss)) ≡ s ∷ ss
unfolding join
split-join s [] a = split_plain s (ground arith)
split-join s (t ∷ ss) a =
    split-append s (join (t ∷ ss)) (ground arith) ∙ ap (◌∷◌ s) (split-join t ss a.1)

-- The elements of a request, cleaned as if from "/".
abbrev pub elements : Bytes → FilePath
elements p = clean_onto [] (split p)

elements-AllPlain : (p : Bytes) → AllPlain (reverse (elements p))
elements-AllPlain p =
    rw (← append-nil (reverse (elements p))) (
      AllPlain-reverse (elements p) [] (clean_onto-AllPlain [] (split p) tt (split-NoSlashes p)) tt)

sanitize_path-elements : (p : Bytes) → sanitize_path p ≡ join (reverse (elements p))
unfolding sanitize_path
sanitize_path-elements [] = refl
sanitize_path-elements (c ∷ cs) = refl

clean_onto-join_nil : (root : FilePath) → clean_onto root (split (join [])) ≡ root
unfolding join split clean_onto
clean_onto-join_nil root = refl

clean_onto-split-join :
    (root : FilePath) (ss : List Bytes)
    → AllPlain ss
    → clean_onto root (split (join ss)) ≡ reverse ss ++ root
clean_onto-split-join root [] a = clean_onto-join_nil root
clean_onto-split-join root (s ∷ ss) a = rw (split-join s ss a) (clean_onto_plain root (s ∷ ss) a)

-- Whatever the requested path is, ".." elements included, the file that the cache touches for it
-- is the request's cleaned elements below the cache's root, and none of them is empty, ".", ".."
-- or has a slash.
pub realpath-sanitize_path :
    (root : FilePath) (p : Bytes)
    → (realpath root (sanitize_path p) ≡ elements p ++ root) × AllPlain (elements p)
unfolding realpath
realpath-sanitize_path root p = (
  rw (sanitize_path-elements p) (
      clean_onto-split-join root (reverse (elements p)) (elements-AllPlain p)
      ∙ ap (λ (x : List Bytes). x ++ root) (reverse-reverse (elements p))),
  clean_onto-AllPlain [] (split p) tt (split-NoSlashes p),
)

-- A sanitised path is its own sanitised form.
pub sanitize_path_twice : (p : Bytes) → sanitize_path (sanitize_path p) ≡ sanitize_path p
sanitize_path_twice p =
    rw (sanitize_path-elements (sanitize_path p), sanitize_path-elements p)
      (ap (λ (x : List Bytes). join (reverse x))
        (clean_onto-split-join [] (reverse (elements p)) (elements-AllPlain p)
          ∙ append-nil (reverse (reverse (elements p)))
          ∙ reverse-reverse (elements p)))
