-- ===== src/Artifacts/Tests.antt =====
-- The validation of artifacts at concrete inputs, with a hash function that is constant.
use dvk_claude.Common.{String, ◌≡◌, refl, true, some, arith, ◌≤◌, utf8_length, none, []}
use dvk_claude.Result.{ok, ◌>>=◌}
use dvk_claude.Json.{
  string, integer, pos, array, object, nil, cons, Items, Fields, field, end, to_list, index_text,
}
use dvk_claude.Artifacts.{is_sha256, validate_path, validate_artifacts, text_artifact}
use dvk_claude.Artifacts.Inside.{IsInside, validate_path-IsInside}
use dvk_claude.Artifacts.Accepted.{AllAccepted, validate_artifacts-AllAccepted}
use dvk_claude.Artifacts.Published.{Describes, text_artifact-Describes}

abbrev digest : String
digest = "00112233445566778899aabbccddeeff00112233445566778899aabbccddeeff"

abbrev same_hash : String → String
same_hash content = digest

abbrev report : Fields
report = field "path" (string "out/report.md") (
    field "sha256" (string digest)
      (field "bytes" (integer (pos 5)) (field "inline_text" (string "hello") end)))

-- A report, and an artifact of the old form, which is not validated.
abbrev items : Items
items = cons (object report) (cons (object (field "path" (string "/tmp/log") end)) nil)

abbrev hashes : Fields
hashes = field "out/report.md" (string digest) end

report_accepted : validate_artifacts same_hash (array items) (object hashes) ≡ ok tt
unfolding validate_artifacts ◌>>=◌ index_text
report_accepted = refl

path_accepted : validate_path (some (string "out/report.md")) ≡ ok tt
unfolding validate_path ◌>>=◌
path_accepted = refl

digest_accepted : is_sha256 digest ≡ true
unfolding is_sha256
digest_accepted = refl

short : utf8_length "hello" ≤ 32768
short = omega arith

validate_path-IsInside_example :
    (path : String) × (some (string "out/report.md") ≡ some (string path)) × IsInside path
validate_path-IsInside_example =
    validate_path-IsInside (some (string "out/report.md")) path_accepted

validate_artifacts-AllAccepted_example :
    (vs : Items) × (fs : Fields) × (array items ≡ array vs)
    × (object hashes ≡ object fs)
    × AllAccepted same_hash fs [] (to_list vs)
validate_artifacts-AllAccepted_example =
    validate_artifacts-AllAccepted same_hash (array items) (object hashes) report_accepted

text_artifact-Describes_example :
    (a : Fields) × (text_artifact same_hash "out/report.md" "hello" none true ≡ ok a)
    × Describes same_hash "out/report.md" "hello" none true a
    × (validate_artifacts same_hash
          (array (cons (object a) nil))
          (object (field "out/report.md" (string digest) end))
        ≡ ok tt)
text_artifact-Describes_example =
    text_artifact-Describes same_hash "out/report.md" "hello" none true
      (path_accepted, digest_accepted, tt, short)
