-- ===== src/TestTool/Program/Listing.antt =====
-- A round of the loop in `main` in which a line asks for the links: from the bytes of the line to the
-- lines that are printed.
use nlcpp.Common.{
  ℕ, Bool, false, zero, suc, ◌<◌, ◌≡◌, refl, ap, ◌∙◌, Option, some, List, [], ◌∷◌, ◌++◌, length,
}
use nlcpp.Common.Run.{ok, after_ok}
use nlcpp.TestTool.Line.{Word}
use nlcpp.TestTool.Number.{codes}
use nlcpp.TestTool.Line.Words.{
  All, IsSpace, IsWordChar, AreSeparated, join, line_end, last_word, words,
}
use nlcpp.TestTool.Args.Settings.{LinkSetting, link_words, AreReadable}
use nlcpp.Route.Caches.{new_manager, link_cache}
use nlcpp.Route.TypedCache.Iteration.{Chain, matching}
use nlcpp.TestTool.Links.{filtered_cache}
use nlcpp.TestTool.Links.Reports.{described}
use nlcpp.TestTool.Links.Listing.{items, left, link_list-matching}
use nlcpp.TestTool.Addresses.{AddressCalls}
use nlcpp.TestTool.Watches.{Delivery, managers_ready}
use nlcpp.TestTool.Program.{Program, WatchCalls, lift_tool, run_input, on_loop, polled}
use nlcpp.TestTool.Program.Lines.{link_listing, name_of, action_of, run_line-action}

-- The descriptors of so many managers had no events.
abbrev pub quiet : (managers : ℕ) → List Bool
quiet zero = []
quiet (suc n) = false ∷ quiet n

module _ {S Link Object Addr Route : Type 0} (c : AddressCalls S Link Object Addr Route)
    (wc : WatchCalls S) (fuel : ℕ) where
  quiet-ready :
      (data_of : ℕ → Delivery) (n i : ℕ) (p : Program S)
      → on_loop (managers_ready c.shared.errno wc.local_text data_of (quiet n) i) p ≡ ok tt p
  unfolding managers_ready
  quiet-ready data_of zero i p = refl
  quiet-ready data_of (suc n) i p = quiet-ready data_of n (suc i) p

  module _ (ss : List LinkSetting) (p : Program S) (blank end_blank : Link) (s₁ s₂ s s' : S)
      (h : AreReadable ss)
      (managed : new_manager c.shared.errno c.shared.managers c.shared.netlink_route p.tool.nl
        ≡ ok tt s₁)
      (cached : link_cache c.shared.errno c.shared.caches s₁ ≡ ok tt s₂)
      (made : c.shared.rtnl_link_alloc s₂ ≡ (some blank, s))
      (end_made : c.shared.rtnl_link_alloc s ≡ (some end_blank, s')) where
    -- A round in which no manager has events, and in which the line read is `link-list` and settings, with
    -- any white space before, between and behind the words, prints one line for each link of a cache
    -- that is not empty and that matches these settings, in the order of the cache, and then that it is
    -- done. Apart from the state of libnl it changes nothing else. It has enough fuel with one unit more
    -- than there are links. The manager, the cache, the filter and the object that the end's iterator
    -- has for a filter are such as libnl gives where it does not fail.
    pub polled-listing :
        (data_of : ℕ → Delivery) (managers : ℕ) (space : List ℕ) (r : List (Word × List ℕ))
        (last : Word) (hidden : Option (List ℕ)) (x : ℕ) (xs : List ℕ)
        → All IsSpace space
        → AreSeparated r
        → All IsWordChar last
        → words r ++ last_word last ≡ codes "link-list" ∷ link_words ss
        → Chain
            (filtered_cache c.shared s (described c.shared ss blank))
            (c.shared.first_link s)
            (x ∷ xs)
        → length (x ∷ xs) < fuel
        → polled c wc fuel data_of
            (quiet managers)
            (some (space ++ (join r ++ (last ++ line_end hidden))))
            p
          ≡ ok tt (record p {
            tool = record p.tool {
              printed =
                  p.tool.printed
                  ++ (items c.shared s' (
                        matching
                          (filtered_cache c.shared s (described c.shared ss blank))
                          0
                          (x ∷ xs))
                      ++ (codes "link-list-done" ∷ []));
              nl = left c.shared s';
            };
          })
    unfolding polled action_of name_of
    polled-listing data_of managers space r last hidden x xs hs hr hl same chain lt =
        after_ok (λ _. run_input c wc fuel (some (space ++ (join r ++ (last ++ line_end hidden)))))
          (quiet-ready data_of managers 0 p)
        ∙ run_line-action c wc fuel link_listing (link_words ss) space r last hidden p hs hr hl same
        ∙ ap (lift_tool p) (
            link_list-matching c.shared ss p.tool blank end_blank s₁ s₂ s s' h managed cached made
              end_made x xs fuel chain lt)
