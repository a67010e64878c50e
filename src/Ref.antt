-- ===== src/Ref.antt =====
-- util/ref.hh: an owned or a borrowed object. A borrowed one is the object that it points to.
use tiny_tcp_over_tun.Common.{Bool, true, false, not, Option, none, some}

pub data Ref (A : Type 0) : Type 0 where
  owned : A → Ref A
  borrowed : A → Ref A

unfoldable pub get : {A : Type 0} → Ref A → A
get (owned obj) = obj
get (borrowed obj) = obj

unfoldable pub borrow : {A : Type 0} → Ref A → Ref A
unfolding get
borrow r = borrowed (get r)

-- The copy constructor: the copy owns its object.
unfoldable pub copy : {A : Type 0} → Ref A → Ref A
unfolding get
copy r = owned (get r)

unfoldable pub is_owned : {A : Type 0} → Ref A → Bool
is_owned (owned obj) = true
is_owned (borrowed obj) = false

unfoldable pub is_borrowed : {A : Type 0} → Ref A → Bool
unfolding is_owned
is_borrowed r = not (is_owned r)

-- `none`: an attempt to mutate a borrowed reference.
unfoldable get_mut : {A : Type 0} → Ref A → Option A
get_mut (owned obj) = some obj
get_mut (borrowed obj) = none

unfoldable pub release : {A : Type 0} → Ref A → A
unfolding get
release r = get r
