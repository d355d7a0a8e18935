-- ===== src/Dhcp/Process/Ends.antt =====
-- ap_website/dhcpserver/dhcpserver.c: the lease table that a part of the handler ends with.
use pico_common.Common.{◌≡◌, refl, List, Bool, true, false, Option, none, some, if◌then◌else◌}
use pico_common.Dhcp.Leases.{Lease}
use pico_common.Dhcp.Process.{Flow, fault, ignore, next, ◌>>=◌, access}

-- Of the table that a flow ends with, if it ends with one.
pub data Ends {ℓ} {A : Type ℓ} (table : A → List Lease) (P : List Lease → Type 0)
    : Flow A → Type ℓ where
  on_fault : Ends table P fault
  on_ignore : {ls : List Lease} → P ls → Ends table P (ignore ls)
  on_next : {a : A} → P (table a) → Ends table P (next a)

pub Ends-access {ℓ κ} :
    {A : Type ℓ} {B : Type κ} {table : B → List Lease} {P : List Lease → Type 0} (o : Option A)
    {f : A → Flow B}
    → ((a : A) → o ≡ some a → Ends table P (f a))
    → Ends table P (access o >>= f)
Ends-access none h = on_fault
Ends-access (some a) h = h a refl

pub Ends-if {ℓ} :
    {A : Type ℓ} {table : A → List Lease} {P : List Lease → Type 0} (b : Bool) {x y : Flow A}
    → ((b ≡ true) → Ends table P x)
    → ((b ≡ false) → Ends table P y)
    → Ends table P (if b then x else y)
Ends-if true h k = h refl
Ends-if false h k = k refl
