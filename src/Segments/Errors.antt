-- ===== src/Segments/Errors.antt =====
-- What a whole use of SegmentPlanner of libneognss-obs/src/reconstruction.cpp can throw, from the
-- bytes of the indexes on.
use neo_gnss_observatory.Base.{Bool, true, ◌&&◌, List, [], ◌∷◌}
use neo_gnss_observatory.Segments.Index.{is_index}
use neo_gnss_observatory.Segments.Session.{Given}

-- Whether each source has an index of the form that `feed` accepts.
abbrev pub all_indexes : List Given → Bool
all_indexes [] = true
all_indexes (g ∷ gs) = is_index g.index && all_indexes gs
