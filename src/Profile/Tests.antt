-- ===== src/Profile/Tests.antt =====
-- A request on a table of eight equal profiles.
use open_trickler_rp2040_con.Prelude.{◌≡◌, refl, true, List, [], ◌∷◌, replicate, get_or}
use open_trickler_rp2040_con.Prelude.Int.{ℤ, pos}
use open_trickler_rp2040_con.Profile.{Profile, ProfileData, Param, pf, p3, ee, Readers, find_index}

-- One digit.
abbrev readers : Readers ℤ
readers = record {
  atoi = λ text. get_or text 0 0;
  strtol = λ text. get_or text 0 0;
  strtof = λ text. pos (get_or text 0 0);
  string_to_boolean = λ text. true;
}

abbrev profile : Profile ℤ
profile = record {
  rev = 0;
  compatibility = 0;
  name = replicate 16 0;
  coarse_kp = pos 0;
  coarse_ki = pos 0;
  coarse_kd = pos 0;
  coarse_min_flow_speed_rps = pos 0;
  coarse_max_flow_speed_rps = pos 0;
  fine_kp = pos 0;
  fine_ki = pos 0;
  fine_kd = pos 0;
  fine_min_flow_speed_rps = pos 0;
  fine_max_flow_speed_rps = pos 0;
}

abbrev table : ProfileData ℤ
table = record { current_profile_idx = 2; profiles = replicate 8 profile }

abbrev request : List Param
request =
    record { key = pf; value = 5 ∷ [] }
    ∷ record { key = p3; value = 7 ∷ [] }
    ∷ record { key = ee; value = [] }
    ∷ []

-- The key `pf` in the second place takes the index from the first parameter's value.
misread_index :
    find_index readers
      (7 ∷ [])
      (record { key = p3; value = 7 ∷ [] } ∷ record { key = pf; value = 5 ∷ [] } ∷ [])
      2
    ≡ 7
unfolding find_index
misread_index = refl
