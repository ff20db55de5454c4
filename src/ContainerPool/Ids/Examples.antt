-- ===== src/ContainerPool/Ids/Examples.antt =====
-- The theorem on the ids of containers at two numbers in a row.
use warden_linux.Base.{◌≡◌, ◌%◌, ◌^◌, ◌↔◌}
use warden_linux.ContainerPool.Ids.Distinct.{container_id_iff}
use warden_linux.ContainerPool.Ids.{container_id}

container_id_iff_example : (container_id 7 ≡ container_id 8) ↔ (7 % 2 ^ 55 ≡ 8 % 2 ^ 55)
container_id_iff_example = container_id_iff 7 8
