-- ===== src/Tests/Tools.antt =====
-- The helpers of util on concrete texts and heights.
use lotus_tools.Prelude.{
  ◌≡◌, refl, ℤ, pos, negsuc, true, List, [], ◌∷◌, ok, done, panic, ◌>>=◌, arith, codes, big_string,
  atoi, InRange64, quot_ℕ,
}
use lotus_tools.Util.Text.{Text, join, split, trim_left, trim_right}
use lotus_tools.Util.Cipher.{
  cfb_encrypter, cfb_decrypter, hex_decode, hex_value, cfb_decrypter-cfb_encrypter,
}
use lotus_tools.Util.Delimited.{string_2_int_array-int_array_2_string}
use lotus_tools.Util.Arrays.{string_2_int_array, int_array_2_string, arr_include}
use lotus_tools.Util.Epochs.{
  height_2_time, time_2_height, whole_epochs, epoch_ns, time_2_height-height_2_time,
}
use lotus_tools.Util.Versions.{Semver, Becomes, major_plus, minor_plus, patch_plus, plus_component}
use lotus_tools.Util.Random.{rand_string, string_with_charset, fill}

-- A block function that gives one block for all.
abbrev block : Text → Text
block b = 7 ∷ 9 ∷ 200 ∷ 1 ∷ 2 ∷ 3 ∷ 4 ∷ 5 ∷ 6 ∷ 8 ∷ 10 ∷ 11 ∷ 12 ∷ 13 ∷ 14 ∷ 15 ∷ []

abbrev iv : Text
iv = 1 ∷ 2 ∷ 3 ∷ 4 ∷ 5 ∷ 6 ∷ 7 ∷ 8 ∷ 9 ∷ 10 ∷ 11 ∷ 12 ∷ 13 ∷ 14 ∷ 15 ∷ 255 ∷ []

cfb_decrypter-cfb_encrypter_example :
    (cfb_encrypter block (ok iv) (codes "a password longer than a block") >>= cfb_decrypter block)
    ≡ done (codes "a password longer than a block")
cfb_decrypter-cfb_encrypter_example =
    cfb_decrypter-cfb_encrypter block (λ b. omega arith) iv (codes "a password longer than a block")
      refl (omega arith) (omega arith)

short_code : cfb_decrypter block (codes "a1a645") ≡ panic
unfolding cfb_decrypter hex_decode hex_value
short_code = refl

abbrev numbers : List ℤ
numbers = pos 12 ∷ negsuc 6 ∷ pos 0 ∷ []

string_2_int_array-int_array_2_string_example :
    string_2_int_array (int_array_2_string numbers (codes ", ")) (codes ", ") ≡ numbers
string_2_int_array-int_array_2_string_example =
    string_2_int_array-int_array_2_string numbers b',' (codes " ") refl (refl, (refl, (refl, tt)))

printed_numbers : int_array_2_string numbers (codes ",") ≡ codes "12,-7,0"
unfolding int_array_2_string split join big_string trim_left trim_right
printed_numbers = refl

-- Text that is no number counts as 0.
other_text : string_2_int_array (codes "4,x,5") (codes ",") ≡ pos 4 ∷ pos 0 ∷ pos 5 ∷ []
unfolding string_2_int_array split atoi
other_text = refl

-- Division towards zero is exact on whole epochs.
epochs-exact : (k : ℤ) → InRange64 (whole_epochs k) → quot_ℕ (whole_epochs k) epoch_ns ≡ k
unfolding quot_ℕ
epochs-exact (pos k) h = ground arith
epochs-exact (negsuc k) h = ground arith

time_2_height-height_2_time_example :
    time_2_height (λ d. quot_ℕ d epoch_ns) (height_2_time (pos 0) (pos 11999)) ≡ pos 11999
time_2_height-height_2_time_example =
    time_2_height-height_2_time (λ d. quot_ℕ d epoch_ns) (pos 0) 11999 epochs-exact (omega arith)

-- A package that knows one version, with a build.
abbrev semver : Semver
semver = record {
  is_valid = λ v. true;
  canonical = λ v. codes "v1.9.4";
  build = λ v. codes "+linux";
}

plus_component_example :
    Becomes semver (codes "v1.9.4+linux") 2 9 4 (major_plus semver (codes "v1.9.4+linux"))
    × Becomes semver (codes "v1.9.4+linux") 1 10 4 (minor_plus semver (codes "v1.9.4+linux"))
    × Becomes semver (codes "v1.9.4+linux") 1 9 5 (patch_plus semver (codes "v1.9.4+linux"))
unfolding join big_string
plus_component_example =
    plus_component semver (codes "v1.9.4+linux") 1 9 4 refl refl (omega arith) (omega arith)
      (omega arith)

included : arr_include ("f01" ∷ "f02" ∷ []) "f02" ≡ true
unfolding arr_include
included = refl

random : rand_string (λ i n. i) (pos 3) ≡ done (codes "abc")
unfolding rand_string string_with_charset fill
random = refl
