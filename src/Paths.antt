-- ===== src/Paths.antt =====
-- PathUtils.h, and QFileInfo's splitting of a path at its last slash.
use zephyrftp.Base.{ℕ, ◌≡◌, refl, Bool, [], ◌∷◌, ◌++◌, ◌==◌, if◌then◌else◌, exists}
use zephyrftp.Base.Text.{Text, codes, ends_with}

abbrev pub slash : ℕ
slash = b'/'

-- joinPath(dir, name)
unfoldable pub join_path : Text → Text → Text
unfolding ends_with
join_path dir name = if ends_with slash dir then dir ++ name else dir ++ (slash ∷ name)

-- Whether a character occurs in a text.
abbrev pub has_char : ℕ → Text → Bool
has_char c = exists (λ x. x == c)

-- QFileInfo(path).fileName(): what stands behind the last slash
unfoldable pub file_name : Text → Text
file_name [] = []
file_name (c ∷ s) = let rest = file_name s in if has_char slash (c ∷ s) then rest else c ∷ s

join_path_root : join_path (codes "/") (codes "a") ≡ codes "/a"
unfolding join_path
join_path_root = refl

file_name_test : file_name (codes "a/b/c.txt") ≡ codes "c.txt"
unfolding file_name
file_name_test = refl
