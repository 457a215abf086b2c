-- ===== src/VolumeController/Availability.antt =====
-- What is reported of a volume that need not grow.
use kubesan.Blobs.Quiet.{Quiet}
