-- ===== src/Sftp/Confined.antt =====
-- Where the paths that clients send may lead, of `ResolveSftpPath`.
use mathlib.Core.Path.{subst}
use quick_logger.Prelude.{
  ℕ, ◌≡◌, ◌≢◌, refl, sym, ap, inl, inr, false, ◌||◌, List, [], ◌∷◌, ◌++◌, Option, none, some,
  some_inj, arith, ◌==◌, Bool-cases, Bytes, codes, equal, is_empty, split_on, split_on_free,
  split_on-All, All, All-append,
}
use quick_logger.Sftp.{
  SftpArea, root, exports, imports, SftpPath, pop_back, take_part, walk, area_of, is_hidden,
  below_folder, in_area, locate, resolve_sftp_path, with_name, sftp_path_string,
}

abbrev pub NoSlash : Bytes → Type 0
NoSlash = All (λ c. (c == b'/') ≡ false)

-- What a piece on the stack is: no slash, not blank, neither "." nor "..".
pub record IsPart (part : Bytes) : Type 0 where
  pub no_slash : NoSlash part
  pub not_blank : is_empty part ≡ false
  pub not_dot : equal part (codes ".") ≡ false
  pub not_up : equal part (codes "..") ≡ false

-- A path of the tree: a name only below a folder, with no slash and not hidden.
pub record IsInTree (path : SftpPath) : Type 0 where
  pub no_slash : NoSlash path.name
  pub shown : is_hidden path.name ≡ false
  pub root_bare : path.area ≡ root → path.name ≡ []

pop_back-All : (P : Bytes → Type 0) (parts : List Bytes) → All P parts → All P (pop_back parts)
unfolding pop_back
pop_back-All P [] h = tt
pop_back-All P (x ∷ []) h = tt
pop_back-All P (x ∷ y ∷ xs) h = (h.0, pop_back-All P (y ∷ xs) h.1)

take_part-IsPart :
    (parts : List Bytes) (part : Bytes)
    → All IsPart parts
    → NoSlash part
    → All IsPart (take_part parts part)
unfolding take_part
take_part-IsPart parts part h n = elim (Bool-cases (is_empty part || equal part (codes "."))) [
  | inl skip ↦ rw skip h
  | inr keep ↦ rw keep (elim (Bool-cases (equal part (codes ".."))) [
    | inl up ↦ rw up (pop_back-All IsPart parts h)
    | inr down ↦ rw down (
        All-append IsPart parts (part ∷ []) h (
          record { no_slash = n; not_blank = ground arith; not_dot = ground arith; not_up = down },
          tt,
        ))
  ])
]

walk-IsPart :
    (parts rest : List Bytes) → All IsPart parts → All NoSlash rest → All IsPart (walk parts rest)
unfolding walk
walk-IsPart parts [] h n = h
walk-IsPart parts (p ∷ rest) h n =
    walk-IsPart (take_part parts p) rest (take_part-IsPart parts p h n.0) n.1

below_folder-IsInTree :
    (area : SftpArea) (rest : List Bytes) {path : SftpPath}
    → area ≢ root
    → All IsPart rest
    → below_folder area rest ≡ some path
    → IsInTree path
unfolding below_folder is_hidden
below_folder-IsInTree area [] a h e =
    subst IsInTree (some_inj e)
      (record { no_slash = tt; shown = refl; root_bare = λ x. absurd (a x) })
below_folder-IsInTree area (name ∷ []) a h e = elim (Bool-cases (is_hidden name)) [
  | inl hidden ↦ cc hidden
  | inr shown ↦
      subst IsInTree (some_inj (rw (shown, below_folder) at e))
        (record { no_slash = h.0.no_slash; shown = shown; root_bare = λ x. absurd (a x) })
]
below_folder-IsInTree area (name ∷ more ∷ rest) a h e = cc

in_area-IsInTree :
    (area : Option SftpArea) (rest : List Bytes) {path : SftpPath}
    → area ≢ some root
    → All IsPart rest
    → in_area area rest ≡ some path
    → IsInTree path
unfolding in_area
in_area-IsInTree none rest a h e = cc
in_area-IsInTree (some area) rest a h e = below_folder-IsInTree area rest (λ x. a (ap some x)) h e

area_of-ne-root : (top : Bytes) → area_of top ≢ some root
unfolding area_of
area_of-ne-root top = ground arith

locate-IsInTree :
    (parts : List Bytes) {path : SftpPath}
    → All IsPart parts
    → locate parts ≡ some path
    → IsInTree path
unfolding locate
locate-IsInTree [] h e =
    subst IsInTree (some_inj e)
      (record { no_slash = tt; shown = unfold is_hidden in refl; root_bare = λ x. refl })
locate-IsInTree (top ∷ rest) h e = in_area-IsInTree (area_of top) rest (area_of-ne-root top) h.1 e

-- Whatever path a client sends, if it resolves then it names the top, one of the two folders or a
-- file directly in one of them, by a name with no slash that does not start with a point.
pub resolve_sftp_path-IsInTree :
    (client_path : Bytes) {path : SftpPath}
    → resolve_sftp_path client_path ≡ some path
    → IsInTree path
unfolding resolve_sftp_path
resolve_sftp_path-IsInTree client_path =
    locate-IsInTree (walk [] (split_on b'/' client_path))
      (walk-IsPart [] (split_on b'/' client_path) tt (split_on-All b'/' client_path))

-- A shown name is a piece that the loop keeps.
take_part-shown :
    (parts : List Bytes) (c : ℕ) (cs : Bytes)
    → is_hidden (c ∷ cs) ≡ false
    → take_part parts (c ∷ cs) ≡ parts ++ (c ∷ cs) ∷ []
unfolding take_part is_hidden equal
take_part-shown parts c cs h = ground arith

resolve_file :
    (top : Bytes) (area : SftpArea) (c : ℕ) (cs : Bytes)
    → area_of top ≡ some area
    → is_hidden (c ∷ cs) ≡ false
    → locate (walk (top ∷ []) ((c ∷ cs) ∷ [])) ≡ some (record { area = area; name = c ∷ cs })
unfolding walk locate
resolve_file top area c cs a h =
    rw (take_part-shown (top ∷ []) c cs h) (rw (a, in_area) (rw (h, below_folder)))

string_round :
    (area : SftpArea) (name : Bytes)
    → IsInTree (record { area = area; name = name })
    → resolve_sftp_path (with_name area name) ≡ some (record { area = area; name = name })
unfolding resolve_sftp_path with_name split_on
string_round root name t =
    ap (λ n. some (record { area = root; name = n })) (sym (t.root_bare refl))
string_round exports [] t = refl
string_round imports [] t = refl
string_round exports (c ∷ cs) t =
    rw (split_on_free b'/' (c ∷ cs) t.no_slash)
      (resolve_file (codes "exports") exports c cs refl t.shown)
string_round imports (c ∷ cs) t =
    rw (split_on_free b'/' (c ∷ cs) t.no_slash)
      (resolve_file (codes "imports") imports c cs refl t.shown)

-- The printed form of a path of the tree resolves to that path.
pub resolve_sftp_path-sftp_path_string :
    (path : SftpPath) → IsInTree path → resolve_sftp_path (sftp_path_string path) ≡ some path
unfolding sftp_path_string
resolve_sftp_path-sftp_path_string path t = string_round path.area path.name t

-- If a client's path resolves, the text printed for the result resolves to the same result.
pub resolve_sftp_path_canonical :
    (client_path : Bytes) {path : SftpPath}
    → resolve_sftp_path client_path ≡ some path
    → resolve_sftp_path (sftp_path_string path) ≡ some path
resolve_sftp_path_canonical client_path {path} e =
    resolve_sftp_path-sftp_path_string path (resolve_sftp_path-IsInTree client_path e)
