-- ===== src/Profile/Request.antt =====
-- What a request does to the table: the index stays in range, and only the chosen profile changes.
use open_trickler_rp2040_con.Prelude.{
  ℕ, ◌<◌, ◌≡◌, Bool, List, [], ◌∷◌, ◌++◌, length, length-append, length-take, length-replicate,
  replicate, arith,
}
use open_trickler_rp2040_con.Profile.{
  Profile, ProfileData, Key, pf, p0, p1, p2, p3, p4, p5, p6, p7, p8, p9, p10, p11, p12, ee, other,
  Param, Readers, copy_name, edit, edit_all,
}

-- The table has its eight profiles, and the selected one is among them.
pub record IsValid {F : Type 0} (d : ProfileData F) : Type 0 where
  pub table : length d.profiles ≡ 8
  pub selected : d.current_profile_idx < 8

length-copy_name : (text : List ℕ) → length (copy_name text) ≡ 16
unfolding copy_name
length-copy_name text = omega (
  arith,
  length-take 16 (text ++ replicate 16 0),
  length-append text (replicate 16 0),
  length-replicate {A = ℕ} 16 0,
)

module _ {F : Type 0} (readers : Readers F) where
  edit-name :
      (k : Key) (v : List ℕ) (p : Profile F) (save : Bool)
      → length p.name ≡ 16
      → length (edit readers k v (p, save)).0.name ≡ 16
  unfolding edit
  edit-name pf v p save h = h
  edit-name p0 v p save h = h
  edit-name p1 v p save h = h
  edit-name p2 v p save h = length-copy_name v
  edit-name p3 v p save h = h
  edit-name p4 v p save h = h
  edit-name p5 v p save h = h
  edit-name p6 v p save h = h
  edit-name p7 v p save h = h
  edit-name p8 v p save h = h
  edit-name p9 v p save h = h
  edit-name p10 v p save h = h
  edit-name p11 v p save h = h
  edit-name p12 v p save h = h
  edit-name ee v p save h = h
  edit-name other v p save h = h

  -- However long the text of a name is, the name keeps its 16 characters.
  edit_all-name :
      (ps : List Param) (p : Profile F) (save : Bool)
      → length p.name ≡ 16
      → length (edit_all readers ps (p, save)).0.name ≡ 16
  unfolding edit_all
  edit_all-name [] p save h = h
  edit_all-name (q ∷ qs) p save h =
      let r = edit readers q.key q.value (p, save) in
      edit_all-name qs r.0 r.1 (edit-name q.key q.value p save h)
