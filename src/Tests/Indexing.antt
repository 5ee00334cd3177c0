-- ===== src/Tests/Indexing.antt =====
-- internal/index/bolt_index.go at concrete inputs.
use record_storage.Common.{List, [], ◌∷◌, All, arith}
use record_storage.Index.{GopMeta}
use record_storage.Index.Ranges.{ranges_of, ranges_of-AreApart, AreApart, Spans}
use record_storage.Tests.Data.{meta, at_second}

abbrev gops : List GopMeta
gops =
    meta
    ∷ record meta { start_time = at_second 12; end_time = at_second 14 }
    ∷ record meta { start_time = at_second 40; end_time = at_second 50 }
    ∷ []

ranges_of-AreApart_example :
    AreApart (ranges_of gops)
    × All (λ (g : GopMeta). Spans g.start_time.instant g.end_time.instant (ranges_of gops)) gops
ranges_of-AreApart_example =
    ranges_of-AreApart gops
      ((omega arith, omega arith, (omega arith, omega arith, (omega arith, omega arith, tt))))
