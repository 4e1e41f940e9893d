-- ===== src/Tests/RouteValues.antt =====
-- The theorems on the attributes of a Route and of a NextHop, at objects whose state is one number or
-- one address.
use nlcpp.Common.{ℕ, zero, suc, ◌≡◌, ◌≢◌, refl, Option, none, some, arith, ◌⊎◌}
use nlcpp.Common.Int.{pos, negsuc, abs}
use nlcpp.Common.Run.{Ends, runtime_error, ◌>>◌}
use nlcpp.Exception.{int_min}
use nlcpp.Exception.Codes.{Tells}
use nlcpp.Route.Fields.{AddrCalls, PlainField}
use nlcpp.Route.RouteEntry.Attributes.{RtnlRoute, dst, set_dst}
use nlcpp.Route.RouteEntry.Attributes.Values.{dst-set_dst}
use nlcpp.Route.NextHop.Attributes.{RtnlNextHop}
use nlcpp.Tests.Errors.{errno, errno-IsErrno}

abbrev number : PlainField ℕ ℕ
number = record { get = λ s. s; set = λ v s. v }

-- The number 0 stands for no destination, and cannot be cloned.
abbrev address_or_none : ℕ → Option ℕ
address_or_none zero = none
address_or_none (suc k) = some (suc k)

abbrev cloning : AddrCalls ℕ ℕ
cloning = record { clone = λ a s. (address_or_none a, s); put = λ a s. s }

abbrev rtnl_route : RtnlRoute ℕ ℕ
rtnl_route = record {
  addr = cloning;
  scope_of = number;
  protocol_of = number;
  priority_of = number;
  family_of = number;
  dst_of = record {
    get = address_or_none;
    set = λ o s. elim o [ none ↦ (negsuc 4, s) | some p ↦ (pos 0, p) ];
  };
}

set_code : pos 0 ≢ int_min
set_code h = ground arith

dst-set_dst_example :
    Ends
      (λ p t. (abs (pos 0) ≡ 0) × (◌≡◌ {A = Option ℕ × ℕ} (some 9, 9) (some p, t)))
      (λ x t.
        ((abs (pos 0) ≢ 0) × (t ≡ 9) × Tells errno "rtnl_route_set_dst failed" 0 x)
        ⊎ ((x ≡ runtime_error "Failed to copy address")
            × (◌≡◌ {A = Option ℕ × ℕ} (some 9, 9) (none, t))))
      ((set_dst rtnl_route errno 9 >> dst rtnl_route) 3)
dst-set_dst_example = dst-set_dst rtnl_route errno errno-IsErrno 9 3 set_code (λ z. refl)

-- The state is the gateway.
abbrev rtnl_hop : RtnlNextHop (Option ℕ) ℕ
rtnl_hop = record {
  addr = record { clone = λ a s. (address_or_none a, s); put = λ a s. s };
  weight_of = record { get = λ s. 1; set = λ v s. s };
  ifindex_of = record { get = λ s. pos 1; set = λ v s. s };
  gateway_of = record { get = λ s. s; set = λ g s. g };
}
