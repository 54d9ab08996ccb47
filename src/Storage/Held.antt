-- ===== src/Storage/Held.antt =====
-- Which connections are open behind a row of openings and closings.
use go_spoc.Prelude.{List, [], ◌∷◌, ◌++◌}
use go_spoc.Storage.{Handle, Action, opened, closed}

-- `Held hs log ks`: with `hs` open before the log, `ks` are open behind it, the last one first. Only
-- the connection that was opened last, and is still open, is ever closed.
pub data Held : List Handle → List Action → List Handle → Type 0 where
  none_more : {hs : List Handle} → Held hs [] hs
  opening :
      {h : Handle} {hs ks : List Handle} {log : List Action}
      → Held (h ∷ hs) log ks
      → Held hs (opened h ∷ log) ks
  closing :
      {h : Handle} {hs ks : List Handle} {log : List Action}
      → Held hs log ks
      → Held (h ∷ hs) (closed h ∷ log) ks

-- A log whose connection is closed behind it.
pub Held-closed :
    {hs ks : List Handle} {log : List Action} {h : Handle}
    → Held hs log (h ∷ ks)
    → Held hs (log ++ (closed h ∷ [])) ks
Held-closed none_more = closing none_more
Held-closed (opening p) = opening (Held-closed p)
Held-closed (closing p) = closing (Held-closed p)
