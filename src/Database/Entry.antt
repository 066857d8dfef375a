-- ===== src/Database/Entry.antt =====
-- The struct MountedApexData of apexd/apex_database.h, and its `operator<`.
use android_system_apex.Common.{
  ◌≡◌, Bool, true, false, Text, text_lt, text_lt_irrefl, text_lt_trans, text_lt_total, arith,
  if◌then◌else◌,
}
use android_system_apex.OrdMap.{Order}

pub record MountedApexData : Type 0 where
  pub loop_name : Text
  pub full_path : Text
  pub mount_point : Text
  pub device_name : Text

-- One field: `compare < 0` gives true, `compare > 0` gives false, else the rest decides.
abbrev pub then_by : Text → Text → Bool → Bool
then_by a b rest = if text_lt a b then true else if text_lt b a then false else rest

-- `operator<`.
unfoldable pub data_lt : MountedApexData → MountedApexData → Bool
data_lt x y = then_by x.loop_name y.loop_name (
    then_by x.full_path y.full_path
      (then_by x.mount_point y.mount_point (text_lt x.device_name y.device_name)))

pub data_lt_irrefl : (x : MountedApexData) → data_lt x x ≡ false
unfolding data_lt
data_lt_irrefl x = ground (
  arith,
  text_lt_irrefl x.loop_name,
  text_lt_irrefl x.full_path,
  text_lt_irrefl x.mount_point,
  text_lt_irrefl x.device_name,
)

-- A lexicographic step keeps transitivity.
then_by_trans :
    (a b c : Text) (r s t : Bool)
    → (r ≡ true → s ≡ true → t ≡ true)
    → then_by a b r ≡ true
    → then_by b c s ≡ true
    → then_by a c t ≡ true
then_by_trans a b c r s t k h h' = ground (
  arith,
  text_lt_irrefl a,
  text_lt_irrefl c,
  text_lt_trans a b c,
  text_lt_trans c a b,
  text_lt_trans b c a,
  text_lt_total a b,
  text_lt_total b c,
)

-- The order of the map's entries is transitive.
pub data_lt_trans :
    (x y z : MountedApexData) → data_lt x y ≡ true → data_lt y z ≡ true → data_lt x z ≡ true
unfolding data_lt
data_lt_trans x y z = then_by_trans _ _ _ _ _ _ (
    then_by_trans _ _ _ _ _ _
      (then_by_trans _ _ _ _ _ _ (text_lt_trans x.device_name y.device_name z.device_name)))

then_by-total :
    (a b : Text) (r s : Bool)
    → then_by a b r ≡ false
    → then_by b a s ≡ false
    → (a ≡ b) × (r ≡ false) × (s ≡ false)
then_by-total a b r s h k = ground (arith, text_lt_total a b, text_lt_irrefl a)

-- Two entries of which neither is less than the other agree in all four fields.
pub data_lt-total : (x y : MountedApexData) → data_lt x y ≡ false → data_lt y x ≡ false → x ≡ y
unfolding data_lt
data_lt-total x y h k =
    let (e1, h1, k1) = then_by-total _ _ _ _ h k in
    let (e2, h2, k2) = then_by-total _ _ _ _ h1 k1 in
    let (e3, h3, k3) = then_by-total _ _ _ _ h2 k2 in
    let e4 = text_lt_total _ _ h3 k3 in
    λ i. record { loop_name = e1 i; full_path = e2 i; mount_point = e3 i; device_name = e4 i }

instance abbrev pub data_order : Order MountedApexData
data_order = record {
  lt = data_lt;
  irrefl = data_lt_irrefl;
  trans = data_lt_trans;
  total = data_lt-total;
}

instance abbrev pub text_order : Order Text
text_order = record {
  lt = text_lt;
  irrefl = text_lt_irrefl;
  trans = text_lt_trans;
  total = text_lt_total;
}
