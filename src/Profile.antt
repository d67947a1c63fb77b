-- ===== src/Profile.antt =====
-- profile.c: the table of powder profiles and the REST request that selects and edits one.
pub mod Request
mod Tests
use Prim.Native.Nat.{◌%◌}
use open_trickler_rp2040_con.Prelude.{
  ℕ, Bool, true, false, ◌||◌, leb, ◌==◌, if◌then◌else◌, Option, none, some, List, [], ◌∷◌, ◌++◌,
  set, get_elem?, take, replicate,
}

abbrev pub max_profile_cnt : ℕ
max_profile_cnt = 8

-- The name is an array of 16 characters.
pub record Profile (F : Type 0) : Type 0 where
  pub rev : ℕ
  pub compatibility : ℕ
  pub name : List ℕ
  pub coarse_kp : F
  pub coarse_ki : F
  pub coarse_kd : F
  pub coarse_min_flow_speed_rps : F
  pub coarse_max_flow_speed_rps : F
  pub fine_kp : F
  pub fine_ki : F
  pub fine_kd : F
  pub fine_min_flow_speed_rps : F
  pub fine_max_flow_speed_rps : F

pub record ProfileData (F : Type 0) : Type 0 where
  pub current_profile_idx : ℕ
  pub profiles : List (Profile F)

-- The keys that the handler knows.
pub data Key : Type 0 where
  pf p0 p1 p2 p3 p4 p5 p6 p7 p8 p9 p10 p11 p12 ee other : Key

-- `params[idx]` and `values[idx]`, the value's text without its terminator.
pub record Param : Type 0 where
  pub key : Key
  pub value : List ℕ

-- The C library's readers: atoi and strtol by the 32-bit pattern of what they return.
pub record Readers (F : Type 0) : Type 0 where
  pub atoi : List ℕ → ℕ
  pub strtol : List ℕ → ℕ
  pub strtof : List ℕ → F
  pub string_to_boolean : List ℕ → Bool

-- `strncpy` into the 16 characters of the name.
unfoldable pub copy_name : List ℕ → List ℕ
copy_name text = take 16 (text ++ replicate 16 0)

-- `values[0]`
unfoldable pub first_value : List Param → List ℕ
first_value [] = []
first_value (p ∷ ps) = p.value

abbrev pub is_pf : Key → Bool
is_pf pf = true
is_pf p0 = false
is_pf p1 = false
is_pf p2 = false
is_pf p3 = false
is_pf p4 = false
is_pf p5 = false
is_pf p6 = false
is_pf p7 = false
is_pf p8 = false
is_pf p9 = false
is_pf p10 = false
is_pf p11 = false
is_pf p12 = false
is_pf ee = false
is_pf other = false

module _ {F : Type 0} (readers : Readers F) where
  -- The loop that looks for `pf`: it reads `values[0]`, whichever parameter is `pf`, into a uint8_t.
  unfoldable pub find_index : List ℕ → List Param → ℕ → ℕ
  find_index value0 [] profile_idx = profile_idx
  find_index value0 (p ∷ ps) profile_idx =
      find_index value0 ps (if is_pf p.key then readers.atoi value0 % 256 else profile_idx)

  -- One parameter, on the profile and `save_to_eeprom`.
  unfoldable pub edit : Key → List ℕ → Profile F × Bool → Profile F × Bool
  unfolding copy_name
  edit pf v (p, save) = (p, save)
  edit p0 v (p, save) = (record p { rev = readers.strtol v }, save)
  edit p1 v (p, save) = (record p { compatibility = readers.strtol v }, save)
  edit p2 v (p, save) = (record p { name = copy_name v }, save)
  edit p3 v (p, save) = (record p { coarse_kp = readers.strtof v }, save)
  edit p4 v (p, save) = (record p { coarse_ki = readers.strtof v }, save)
  edit p5 v (p, save) = (record p { coarse_kd = readers.strtof v }, save)
  edit p6 v (p, save) = (record p { coarse_min_flow_speed_rps = readers.strtof v }, save)
  edit p7 v (p, save) = (record p { coarse_max_flow_speed_rps = readers.strtof v }, save)
  edit p8 v (p, save) = (record p { fine_kp = readers.strtof v }, save)
  edit p9 v (p, save) = (record p { fine_ki = readers.strtof v }, save)
  edit p10 v (p, save) = (record p { fine_kd = readers.strtof v }, save)
  edit p11 v (p, save) = (record p { fine_min_flow_speed_rps = readers.strtof v }, save)
  edit p12 v (p, save) = (record p { fine_max_flow_speed_rps = readers.strtof v }, save)
  edit ee v (p, save) = (p, readers.string_to_boolean v)
  edit other v (p, save) = (p, save)

  unfoldable pub edit_all : List Param → Profile F × Bool → Profile F × Bool
  unfolding edit
  edit_all [] r = r
  edit_all (p ∷ ps) r = edit_all ps (edit p.key p.value r)

  -- The handler behind the search for the index: profile_select, the edits, and whether
  -- profile_data_save runs. An index past the table is refused; a table that is too short, which the
  -- array rules out, is left alone.
  unfoldable pub edit_at : ℕ → List Param → ProfileData F → Bool × ProfileData F × Bool
  unfolding edit_all
  edit_at idx params d =
      if leb max_profile_cnt idx then (false, d, false) else elim (get_elem? d.profiles idx) [
        | none ↦ (false, d, false)
        | some p ↦
            let r = edit_all params (p, false) in
            (true, record { current_profile_idx = idx; profiles = set d.profiles idx r.0 }, r.1)
      ]

  unfoldable pub http_rest_profile_config : List Param → ProfileData F → Bool × ProfileData F × Bool
  unfolding edit_at find_index first_value
  http_rest_profile_config params d =
      edit_at (find_index (first_value params) params (d.current_profile_idx % 256)) params d
