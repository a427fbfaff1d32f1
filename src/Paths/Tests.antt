-- ===== src/Paths/Tests.antt =====
-- Runs of the path functions on "/ab" and "../c/./d".
use scales_os.Prelude.{ℕ, ◌≡◌, refl, some, List, [], ◌∷◌, reverse, length, get_elem?, All, arith}
use scales_os.Paths.{
  slash, same_string, without_first_slash, without_last_slash, strip, count_slashes, path_length,
  until_slash, skip, segment_of, segment, pop, push_segment, push_segments, join_segments,
  starts_with_slash, push_root, push_relative, resolve, canonize, filename,
}
use scales_os.Paths.Parts.{parts, prepend, ends_plain, segment-parts}
use scales_os.Paths.Canonical.{push_all, IsPlain, resolve-IsPlain, canonize-parts}

abbrev root : List ℕ
root = 47 ∷ 97 ∷ 98 ∷ []

abbrev up_c_d : List ℕ
up_c_d = 46 ∷ 46 ∷ 47 ∷ 99 ∷ 47 ∷ 46 ∷ 47 ∷ 100 ∷ []

segment-parts_example :
    (path_length up_c_d ≡ length (parts (strip up_c_d)))
    × (segment up_c_d 3 ≡ get_elem? (parts (strip up_c_d)) 3)
unfolding ends_plain strip path_length same_string without_first_slash without_last_slash
    count_slashes
segment-parts_example = segment-parts up_c_d 3 refl refl (omega arith)

resolve-IsPlain_example : All IsPlain ((100 ∷ []) ∷ (99 ∷ []) ∷ [])
unfolding resolve push_root push_relative push_segments push_segment segment segment_of skip
    until_slash strip path_length same_string without_first_slash without_last_slash count_slashes
    starts_with_slash pop
resolve-IsPlain_example = resolve-IsPlain root up_c_d ((100 ∷ []) ∷ (99 ∷ []) ∷ []) refl

canonize-parts_example :
    canonize root up_c_d
    ≡ some (
        slash
        ∷ join_segments
            (reverse (push_all (push_all [] (parts (strip root))) (parts (strip up_c_d)))))
unfolding ends_plain strip same_string without_first_slash without_last_slash starts_with_slash
    parts push_all push_segment pop join_segments prepend
canonize-parts_example = canonize-parts root up_c_d refl refl refl refl refl (omega arith)

-- "/c/d"
canonized : canonize root up_c_d ≡ some (47 ∷ 99 ∷ 47 ∷ 100 ∷ [])
unfolding canonize join_segments resolve push_root push_relative push_segments push_segment segment
    segment_of skip until_slash strip path_length same_string without_first_slash without_last_slash
    count_slashes starts_with_slash pop
canonized = refl

-- Of "a//" the first segment is found twice: "/a/a".
doubled : canonize (47 ∷ []) (97 ∷ 47 ∷ 47 ∷ []) ≡ some (47 ∷ 97 ∷ 47 ∷ 97 ∷ [])
unfolding canonize join_segments resolve push_root push_relative push_segments push_segment segment
    segment_of skip until_slash strip path_length same_string without_first_slash without_last_slash
    count_slashes starts_with_slash pop
doubled = refl

named : filename up_c_d ≡ some (100 ∷ [])
unfolding filename segment segment_of skip until_slash strip path_length same_string
    without_first_slash without_last_slash count_slashes
named = refl
