-- ===== src/Prelude/FilePath/Laws.antt =====
-- What `file_name` can return: one normal component, that no join can use to leave its base.
use Prim.Native.Char.{code}
use Prim.Native.String.{String, ◌++◌ as ◌<>◌}
use mathlib.Core.Logic.{◌≢◌, inl, inr}
use mathlib.Core.Path.{◌≡◌, subst, sym}
use mathlib.Core.List.{List, [], ◌∷◌}
use mathlib.Core.Option.{Option, none, some}
use native.Mathlib.Omega.{arith}
use text.Mathlib.Text.{◌==◌ as str_eq}
use text.Mathlib.TextEquality.{eq_iff}
use text.Mathlib.TextLemmas.{nil-append, cons-append}
use magnarr.Prelude.Tests.{◌==◌, Bool-cases}
use magnarr.Prelude.Lists.{All}
use magnarr.Prelude.FilePath.{split_slash, last_normal, keep, file_name}

abbrev pub NoSlash : String → Type 0
NoSlash String.[] = Unit
NoSlash (String.◌∷◌ c s) = (code c ≢ b'/') × NoSlash s

-- A name that stands for one entry of a directory.
pub record IsNormal (name : String) : Type 0 where
  pub no_slash : NoSlash name
  pub not_empty : name ≢ ""
  pub not_dot : name ≢ "."
  pub not_dot_dot : name ≢ ".."

NoSlash-append : (s t : String) → NoSlash s → NoSlash t → NoSlash (s <> t)
NoSlash-append String.[] t hs ht = subst NoSlash (sym (nil-append t)) ht
NoSlash-append (String.◌∷◌ c s) t hs ht =
    subst NoSlash (sym (cons-append c s t)) (hs.0, NoSlash-append s t hs.1 ht)

split_slash-NoSlash : (part s : String) → NoSlash part → All NoSlash (split_slash part s)
unfolding split_slash
split_slash-NoSlash part String.[] h = (h, tt)
split_slash-NoSlash part (String.◌∷◌ c s) h = elim (Bool-cases (code c == b'/')) [
  | inl slash ↦ rw (slash, split_slash) (h, split_slash-NoSlash "" s tt)
  | inr other ↦
      rw (other, split_slash)
        (split_slash-NoSlash (part <> (String.◌∷◌ c String.[])) s
          (NoSlash-append part (String.◌∷◌ c String.[]) h (ground arith, tt)))
]

abbrev Normal : Option String → Type 0
Normal none = Unit
Normal (some name) = IsNormal name

keep-Normal :
    (part : String) (last : Option String) → NoSlash part → Normal last → Normal (keep part last)
unfolding keep
keep-Normal part last h n = elim (Bool-cases (str_eq part "")) [
  | inl e ↦ rw (e, keep) n
  | inr ne ↦ elim (Bool-cases (str_eq part ".")) [
    | inl e ↦ rw (ne, e, keep) n
    | inr ne' ↦ elim (Bool-cases (str_eq part "..")) [
      | inl e ↦ rw (ne, ne', e, keep) tt
      | inr ne'' ↦
          rw (ne, ne', ne'', keep)
            (record {
              no_slash = h;
              not_empty = λ e. cc ((eq_iff part "").1 e);
              not_dot = λ e. cc ((eq_iff part ".").1 e);
              not_dot_dot = λ e. cc ((eq_iff part "..").1 e);
            })
    ]
  ]
]

last_normal-Normal :
    (last : Option String) (parts : List String)
    → All NoSlash parts
    → Normal last
    → Normal (last_normal last parts)
unfolding last_normal
last_normal-Normal last [] h n = n
last_normal-Normal last (part ∷ parts) h n =
    last_normal-Normal (keep part last) parts h.1 (keep-Normal part last h.0 n)

-- The name is not empty, not `.` or `..`, and holds no slash.
pub file_name-IsNormal : (path name : String) → file_name path ≡ some name → IsNormal name
unfolding file_name
file_name-IsNormal path name e =
    subst Normal e
      (last_normal-Normal none (split_slash "" path) (split_slash-NoSlash "" path tt) tt)
