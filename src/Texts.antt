-- ===== src/Texts.antt =====
-- Free texts as the services treat them: `trim` and the empty text. A text is the list of its code
-- units.
use ufcim_backend_proto.Prelude.{
  ℕ, Bool, ◌&&◌, ◌||◌, Option, none, some, [], ◌∷◌, leb, ◌==◌, if◌then◌else◌,
}
use ufcim_backend_proto.Schedule.Times.{Text}

-- The white space and line terminators of ECMAScript.
abbrev is_white_space : ℕ → Bool
is_white_space c =
    (leb 9 c && leb c 13)
    || (c == 32
        || (c == 160
            || (c == 5760
                || ((leb 8192 c && leb c 8202)
                    || (c == 8232
                        || (c == 8233
                            || (c == 8239 || (c == 8287 || (c == 12288 || c == 65279)))))))))

unfoldable pub trim_start : Text → Text
trim_start [] = []
trim_start (c ∷ cs) = if is_white_space c then trim_start cs else c ∷ cs

abbrev drop_blank : ℕ → Text → Text
drop_blank c [] = if is_white_space c then [] else c ∷ []
drop_blank c (d ∷ ds) = c ∷ d ∷ ds

unfoldable pub trim_end : Text → Text
trim_end [] = []
trim_end (c ∷ cs) = drop_blank c (trim_end cs)

-- `text || null`
abbrev pub non_empty : Text → Option Text
non_empty [] = none
non_empty (c ∷ cs) = some (c ∷ cs)

-- `description?.trim() || null`
unfoldable pub trimmed : Option Text → Option Text
unfolding trim_start trim_end
trimmed none = none
trimmed (some t) = non_empty (trim_end (trim_start t))
