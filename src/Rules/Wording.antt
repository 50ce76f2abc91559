-- ===== src/Rules/Wording.antt =====
-- The texts that internal/rules/resolve.go puts into events.
use Prim.Native.String.{String, ◌++◌}
use vtt_platform.Prelude.{List, [], ◌∷◌}
use vtt_platform.Prelude.Int.{ℤ}
use vtt_platform.Go.Format.{format_int}

unfoldable pub outcome_reason : String → String → String
outcome_reason ability phase = "ability:" ++ (ability ++ (":" ++ phase))

unfoldable pub threshold_reason : String → String
threshold_reason resource = "threshold:" ++ resource

unfoldable pub used_on : String → String → String
used_on name target = name ++ (" on " ++ target)

unfoldable pub verdict : String → String → String → ℤ → ℤ → String
unfolding used_on format_int
verdict name target word total vs =
    used_on name target
    ++ (": " ++ (word ++ (" (" ++ (format_int total ++ (" vs " ++ (format_int vs ++ ")"))))))

-- strings.Join(parts, "; ")
unfoldable pub join_parts : List String → String
join_parts [] = ""
join_parts (part ∷ []) = part
join_parts (part ∷ next ∷ rest) = part ++ ("; " ++ join_parts (next ∷ rest))
