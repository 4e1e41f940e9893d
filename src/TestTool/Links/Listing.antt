-- ===== src/TestTool/Links/Listing.antt =====
-- What link-list prints.
use nlcpp.Common.{ℕ, ◌<◌, ◌≡◌, sym, ap, ◌∙◌, some, List, [], ◌∷◌, ◌++◌, map, length}
use mathlib.Core.List.{append_assoc, append-nil}
use nlcpp.Common.Run.{M, ok, ◌>>=◌, ◌>>◌, after_ok}
use nlcpp.Route.TypedCache.{NlCache, Iterator, visit, filtered_begin, filtered_end}
use nlcpp.Route.TypedCache.Iterators.Balance.{then-eq-value}
use nlcpp.Route.TypedCache.Iteration.{Chain, matching, visit-matching}
use nlcpp.Objects.Defs.{Ptr}
use nlcpp.TestTool.Line.{Word}
use nlcpp.TestTool.Number.{codes}
use nlcpp.TestTool.Args.Settings.{LinkSetting, link_words, AreReadable}
use nlcpp.TestTool.State.{Tool, for_each, print_line, on_cache, on_nl, lift_run}
use nlcpp.Route.Caches.{new_manager, link_cache, drop_cache, drop_manager}
use nlcpp.TestTool.Links.{
  LinkCalls, link_item, print_link, link_of_args, list_links, new_link, link_list, filtered_cache,
}
use nlcpp.TestTool.Links.Reports.{described, link_of_args-described, new_link-made}

module _ {S Link Addr Route : Type 0} (c : LinkCalls S Link Addr Route) where
  -- The lines for the links at these pointers.
  abbrev pub items : S → List ℕ → List Word
  items s xs = map (λ x. link_item c (c.link_at s x)) xs

  for_each-items :
      (xs : List ℕ) (t : Tool S)
      → for_each (print_link c) (map some xs) t
        ≡ ok tt (record t { printed = t.printed ++ items t.nl xs })
  unfolding for_each print_link print_line
  for_each-items [] t = ap (λ ls. ok tt (record t { printed = ls })) (sym (append-nil t.printed))
  for_each-items (x ∷ xs) t =
      let line = link_item c (c.link_at t.nl x) in
      for_each-items xs (record t { printed = t.printed ++ (line ∷ []) })
      ∙ ap (λ ls. ok tt (record t { printed = ls }))
          (append_assoc t.printed (line ∷ []) (items t.nl xs))

  -- The loop over a cache; `s` is the state with the filter of the end's iterator.
  list_links-matching :
      (cache : NlCache) (x : ℕ) (xs : List ℕ) (fuel : ℕ) (t : Tool S) (blank : Link) (s : S)
      → Chain cache cache.first (x ∷ xs)
      → length (x ∷ xs) < fuel
      → c.rtnl_link_alloc t.nl ≡ (some blank, s)
      → list_links c fuel cache t
        ≡ ok tt (record t {
          printed =
              t.printed ++ (items s (matching cache 0 (x ∷ xs)) ++ (codes "link-list-done" ∷ []));
          nl = s;
        })
  unfolding list_links print_line
  list_links-matching cache x xs fuel t blank s chain lt made =
      let links = matching cache 0 (x ∷ xs) in
      let u : Tool S = record t { nl = s } in
      let finish : M (Tool S) (Unit {0}) = print_line (codes "link-list-done") in
      let show : List Ptr → M (Tool S) (Unit {0}) = λ ls. for_each (print_link c) ls >> finish in
      let going : Iterator → M (Tool S) (Unit {0}) =
        λ it. on_cache (visit cache fuel fuel (filtered_end cache 0) it) >>= show in
      let (begin, begun, visited) =
        then-eq-value (filtered_begin cache fuel (some 0))
          (visit cache fuel fuel (filtered_end cache 0))
          (visit-matching cache x xs 0 0 fuel chain lt) in
      after_ok (λ it. new_link c >>= λ b. going it) (ap (λ o. on_cache {S = S} o t) begun)
      ∙ after_ok (λ b. going begin) (new_link-made c t blank s made)
      ∙ after_ok show (ap (λ o. on_cache {S = S} o u) visited)
      ∙ after_ok (λ _. finish) (for_each-items links u)
      ∙ ap (λ ls. ok tt (record u { printed = ls })) (append_assoc t.printed (items s links) _)

  -- The state after the destructors of the cache of links and of its manager.
  abbrev pub left : S → S
  left s = c.caches.nl_cache_mngr_free (c.caches.nl_cache_put "route/link" s)

  module _ (ss : List LinkSetting) (t : Tool S) (blank end_blank : Link) (s₁ s₂ s s' : S)
      (h : AreReadable ss)
      (managed : new_manager c.errno c.managers c.netlink_route t.nl ≡ ok tt s₁)
      (cached : link_cache c.errno c.caches s₁ ≡ ok tt s₂)
      (made : c.rtnl_link_alloc s₂ ≡ (some blank, s))
      (end_made : c.rtnl_link_alloc s ≡ (some end_blank, s')) where
    abbrev filter_of : Link
    filter_of = described c ss blank

    -- link-list with settings as its arguments prints one line for each link of a cache that is not
    -- empty and that matches these settings, in the order of the cache, and then that it is done. It
    -- prints nothing else, gives its cache and its manager back, and has enough fuel with one unit more
    -- than there are links. The manager, the cache, the filter and the object that the end's iterator has
    -- for a filter are such as libnl gives where it does not fail.
    pub link_list-matching :
        (x : ℕ) (xs : List ℕ) (fuel : ℕ)
        → Chain (filtered_cache c s filter_of) (c.first_link s) (x ∷ xs)
        → length (x ∷ xs) < fuel
        → link_list c fuel (link_words ss) t
          ≡ ok tt (record t {
            printed =
                t.printed
                ++ (items s' (matching (filtered_cache c s filter_of) 0 (x ∷ xs))
                    ++ (codes "link-list-done" ∷ []));
            nl = left s';
          })
    unfolding link_list drop_cache drop_manager
    link_list-matching x xs fuel chain lt =
        let leave : M (Tool S) (Unit {0}) =
          on_nl (drop_cache c.errno c.caches "route/link")
          >> on_nl (drop_manager c.errno c.caches) in
        let listing : Link → M (Tool S) (Unit {0}) =
          λ filter. (λ u. list_links c fuel (filtered_cache c u.nl filter) u) >> leave in
        let parsed : M (Tool S) (Unit {0}) = link_of_args c (link_words ss) >>= listing in
        after_ok (λ _. on_nl (link_cache c.errno c.caches) >> parsed) (ap (lift_run t) managed)
        ∙ after_ok (λ _. parsed) (ap (lift_run (record t { nl = s₁ })) cached)
        ∙ after_ok listing (link_of_args-described c ss (record t { nl = s₂ }) blank s h made)
        ∙ after_ok (λ _. leave)
            (list_links-matching (filtered_cache c s filter_of) x xs fuel (record t { nl = s })
              end_blank s' chain lt end_made)
