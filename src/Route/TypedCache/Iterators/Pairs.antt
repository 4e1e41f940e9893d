-- ===== src/Route/TypedCache/Iterators/Pairs.antt =====
-- The two iterators of a loop, as four objects that were made one after the other.
use nlcpp.Common.{ℕ, sym, none, some, arith}
use nlcpp.Objects.Defs.{Ptr, Libnl, World}
use nlcpp.Objects.Class.Effects.{Changed}
use nlcpp.Route.TypedCache.Iterators.{IteratorObject}
use nlcpp.Route.TypedCache.Iterators.Steps.{Made}
use nlcpp.Route.TypedCache.Iterators.Balance.{Apart, Looping}

module _ {l : Libnl} (ext : ℕ → ℕ) (w : World l) where
  -- Two iterators made one after the other.
  pub Made-Apart :
      (p g : Ptr) (b : ℕ) (it last : IteratorObject) (v u : World l)
      → Made ext w p g it v
      → Made ext v none (some b) last u
      → Apart ext w it last g b
  Made-Apart p g b it last v u m n = record {
    obj_unused = m.obj_unused;
    filter_unused = m.filter_unused;
    end_unused = λ j o h. n.obj_unused j o (m.frame j o h);
    blank_unused = λ j o h. n.filter_unused j o (m.frame j o h);
    obj_filter = m.apart;
    obj_end = λ e. n.obj_unused it.obj (some p) m.obj_live (sym e);
    obj_blank = λ e. n.filter_unused it.obj (some p) m.obj_live (sym e);
    filter_end = λ e. n.obj_unused it.filter (some g) m.filter_live (sym e);
    filter_blank = λ e. n.filter_unused it.filter (some g) m.filter_live (sym e);
    end_blank = n.apart;
  }

  pub Made-Looping :
      (p g : Ptr) (b : ℕ) (it last : IteratorObject) (v u : World l)
      → Made ext w p g it v
      → Made ext v none (some b) last u
      → Looping ext w it last g b p u
  Made-Looping p g b it last v u m n = record {
    obj_live = n.frame it.obj (some p) m.obj_live;
    filter_live = n.frame it.filter (some g) m.filter_live;
    end_live = n.obj_live;
    blank_live = n.filter_live;
    frame = λ j o h. n.frame j o (m.frame j o h);
    counts = λ q. omega (arith, n.counts q, m.counts q);
    owned = n.owned;
  }

  pub Changed-Made :
      (p p' g : Ptr) (it : IteratorObject) (v u : World l)
      → Made ext w p g it v
      → Changed ext v it.obj p p' u
      → Made ext w p' g it u
  Changed-Made p p' g it v u m d = record {
    obj_live = d.live;
    filter_live = d.frame it.filter (some g) m.apart m.filter_live;
    apart = m.apart;
    obj_unused = m.obj_unused;
    filter_unused = m.filter_unused;
    frame = λ j o h. d.frame j o (m.obj_unused j o h) (m.frame j o h);
    counts = λ q. omega (arith, d.counts q, m.counts q);
    owned = d.owned;
  }
