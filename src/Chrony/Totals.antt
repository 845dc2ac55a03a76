-- ===== src/Chrony/Totals.antt =====
-- A reply that holds its report's length is read, whatever its bytes, times out of range aside.
use truenas_ros_utils.Chrony.Error.{Error}
use truenas_ros_utils.Chrony.Wire.Consumes.{Consumes}
use truenas_ros_utils.Chrony.Tracking
use truenas_ros_utils.Chrony.Tracking.{Tracking}
use truenas_ros_utils.Chrony.Auth
use truenas_ros_utils.Chrony.Source
use truenas_ros_utils.Chrony.Source.{Source}
use truenas_ros_utils.Chrony.Selection
use truenas_ros_utils.Chrony.Selection.{Selection}
