-- ===== src/Genproto/Archive.antt =====
-- cmd/genproto/main.go: unzip. A path is its segments, the innermost first; the name of an entry is
-- its segments in their order.
use microservice_diagnosis.Prelude.{
  String, Bool, true, false, ◌&&◌, List, [], ◌∷◌, ◌++◌, str_eq, any, All, ◌≡◌, refl, All-append,
  arith, Bool-cases, inl, inr, if◌then◌else◌,
}

abbrev pub FilePath : Type 0
FilePath = List String

pub record Entry : Type 0 where
  pub name : List String
  pub is_dir : Bool

-- os.MkdirAll, the opening of an entry, os.Create and io.Copy, by whether they succeed.
pub record FileSystem : Type 0 where
  pub mkdir_all : FilePath → Bool
  pub opens : Entry → Bool
  pub creates : FilePath → Bool
  pub copies : Entry → Bool

-- `filepath.Dir` of a clean path.
abbrev parent : FilePath → FilePath
parent [] = []
parent (d ∷ ds) = ds

-- `filepath.Join` of a clean path and a name: empty segments and dots fall away, and `..` goes up.
unfoldable pub join : FilePath → List String → FilePath
join dest [] = dest
join dest (s ∷ ss) =
    join
      (if str_eq s ""
        then dest
        else if str_eq s "."
        then dest
        else if str_eq s ".."
        then parent dest
        else s ∷ dest)
      ss

abbrev create_file : FileSystem → Entry → FilePath → Bool × List FilePath
create_file fs e target =
    if fs.mkdir_all (parent target) && (fs.opens e && fs.creates target)
    then (fs.copies e, target ∷ [])
    else (false, [])

-- One round of the loop: whether it goes on, and the files that it has created.
abbrev pub extract : FileSystem → FilePath → Entry → Bool × List FilePath
extract fs dest e =
    if e.is_dir then (fs.mkdir_all (join dest e.name), []) else create_file fs e (join dest e.name)

-- The loop of `unzip`: whether it returns no error, and the files created.
unfoldable pub unzip : FileSystem → FilePath → List Entry → Bool × List FilePath
unfolding join
unzip fs dest [] = (true, [])
unzip fs dest (e ∷ es) =
    let rest = unzip fs dest es in
    if (extract fs dest e).0
    then (rest.0, (extract fs dest e).1 ++ rest.1)
    else (false, (extract fs dest e).1)

-- The path stands in the directory or below it.
abbrev pub IsInside : FilePath → FilePath → Type 0
IsInside dest p = (inner : FilePath) × (p ≡ inner ++ dest)

-- The name goes up nowhere.
abbrev pub climbs : Entry → Bool
climbs e = any (λ s. str_eq s "..") e.name

join-IsInside :
    (dest inner : FilePath) (name : List String)
    → any (λ s. str_eq s "..") name ≡ false
    → IsInside dest (join (inner ++ dest) name)
unfolding join
join-IsInside dest inner [] h = (inner, refl)
join-IsInside dest inner (s ∷ ss) h =
    let up : str_eq s ".." ≡ false = ground arith in
    let rest : any (λ t. str_eq t "..") ss ≡ false = ground arith in
    elim (Bool-cases (str_eq s "")) [
      | inl e ↦ simp (e) (join-IsInside dest inner ss rest)
      | inr e ↦ elim (Bool-cases (str_eq s ".")) [
        | inl f ↦ simp (e, f) (join-IsInside dest inner ss rest)
        | inr f ↦ simp (e, f, up) (join-IsInside dest (s ∷ inner) ss rest)
      ]
    ]

extract-IsInside :
    (fs : FileSystem) (dest : FilePath) (e : Entry)
    → climbs e ≡ false
    → All (IsInside dest) (extract fs dest e).1
extract-IsInside fs dest e h = elim (Bool-cases e.is_dir) [
  | inl d ↦ simp (d) tt
  | inr d ↦
      elim (Bool-cases (
        fs.mkdir_all (parent (join dest e.name))
        && (fs.opens e && fs.creates (join dest e.name)))) [
          | inl c ↦ simp (d, c) (join-IsInside dest [] e.name h, tt)
          | inr c ↦ simp (d, c) tt
        ]
]

-- When no entry of the archive has a name that climbs by `..`, every file that is created stands in
-- the destination or below it, however far the extraction gets.
pub unzip-IsInside :
    (fs : FileSystem) (dest : FilePath) (es : List Entry)
    → any climbs es ≡ false
    → All (IsInside dest) (unzip fs dest es).1
unfolding unzip
unzip-IsInside fs dest [] h = tt
unzip-IsInside fs dest (e ∷ es) h =
    let here : All (IsInside dest) (extract fs dest e).1 =
      extract-IsInside fs dest e (ground arith) in
    elim (Bool-cases (extract fs dest e).0) [
      | inl g ↦
          simp (g) (All-append (IsInside dest) _ _ here (unzip-IsInside fs dest es (ground arith)))
      | inr g ↦ simp (g) here
    ]

abbrev climbing : String → Entry
climbing name = record { name = ".." ∷ name ∷ []; is_dir = false }

-- Nothing else guards the destination: an entry `../name` is created beside it.
unzip_escapes :
    (fs : FileSystem) (d name : String) (ds : FilePath)
    → fs.mkdir_all ds ≡ true
    → (fs.opens (climbing name) && fs.creates (name ∷ ds)) ≡ true
    → str_eq name "" ≡ false
    → str_eq name "." ≡ false
    → str_eq name ".." ≡ false
    → (unzip fs (d ∷ ds) (climbing name ∷ [])).1 ≡ (name ∷ ds) ∷ []
unfolding unzip
unzip_escapes fs d name ds m c p q r =
    simp (p, q, r, m, c)
      (elim (Bool-cases (fs.copies (climbing name))) [
        | inl e ↦ simp (e) refl
        | inr e ↦ simp (e) refl
      ])
