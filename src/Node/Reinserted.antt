-- ===== src/Node/Reinserted.antt =====
-- The reinsertion of the cached streams, src/node.cpp, on the reset model.
use nmos_client.Base.{string_eq}
use nmos_client.Base.Exec.{Exec}
use nmos_client.Reconcile.Kind.{Kind}
use nmos_client.Node.Library.{Library}
use nmos_client.Node.State.{Node}
use nmos_client.Node.Keeps.{Keeps}
