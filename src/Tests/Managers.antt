-- ===== src/Tests/Managers.antt =====
-- CacheManager objects at the libnl of Store, where the place of a count is the pointer.
use nlcpp.Common.{◌≡◌, refl, some, [], ◌∷◌}
use nlcpp.Common.Int.{pos}
use nlcpp.Common.Run.{fault, ◌>>=◌, ◌>>◌}
use nlcpp.Objects.Defs.{World}
use nlcpp.Netlink.CacheManager.{ManagerCalls, manager_destroy, manager_fd, manager_copy}
use nlcpp.Netlink.CacheManager.Copies.{manager_copy-freed}
use nlcpp.Tests.Store.{counts, counts-IsCounted, append_one}

abbrev manager_calls : ManagerCalls counts
manager_calls = record {
  nl_cache_mngr_alloc = λ protocol s. (pos 0, append_one s);
  nl_cache_mngr_get_fd = λ p s. pos p;
}

-- One object, with the manager at 0.
abbrev one_manager : World counts
one_manager = record { objects = some (some 0) ∷ []; store = 1 ∷ [] }

manager_copy-freed_example :
    ((manager_copy 0 >>= λ other. manager_destroy other >> manager_destroy 0) one_manager ≡ fault)
    × ((manager_copy 0 >>= λ other. manager_destroy 0 >> manager_destroy other) one_manager ≡ fault)
    × ((manager_copy 0 >>= λ other. manager_destroy other >> manager_fd manager_calls 0) one_manager
        ≡ fault)
    × ((manager_copy 0 >>= λ other. manager_destroy 0 >> manager_fd manager_calls other) one_manager
        ≡ fault)
manager_copy-freed_example =
    manager_copy-freed counts-IsCounted.allocator manager_calls one_manager 0 0 refl refl
